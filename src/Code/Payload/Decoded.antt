-- ===== src/Code/Payload/Decoded.antt =====
-- What `decode` of payload.rs gives its caller.
