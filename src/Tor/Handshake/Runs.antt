-- ===== src/Tor/Handshake/Runs.antt =====
-- The handshake over the toy group and the toy cipher; a text in base64 is the text itself, and HKDF
-- gives the length of its info and 31 zero bytes.
use ptransfer_cli.Common.{
  ℕ, ◌-◌, ◌≡◌, refl, List, [], ◌∷◌, ◌++◌, Option, none, some, true, ok, length, replicate, ◌⊎◌,
  arith,
}
use ptransfer_cli.Common.Bytes.{codes}
use ptransfer_cli.Crypto.Aead.{drawn}
use ptransfer_cli.Crypto.Aead.Toy.{toy_aead, toy_seal}
use ptransfer_cli.Crypto.Aes.{decrypt, decrypt_with_aad, encrypt, encrypt_with_aad}
use ptransfer_cli.Crypto.Kdf.{
  TorSessionKeys, label_tor_claim, label_tor_confirm, label_tor_content, tor_session_keys,
}
use ptransfer_cli.Crypto.Spake2.{
  PakeRun, derive_pake_secret, start, compress, draw_scalar, sender, receiver, tor, finish,
  transcript, is_valid_pake_message,
}
use ptransfer_cli.Crypto.Spake2.Agreement.{finish-start}
use ptransfer_cli.Crypto.Spake2.Transcript.{transcript_injective}
use ptransfer_cli.Crypto.Spake2.Toy.{toy_curve}
use ptransfer_cli.Tor.Handshake.{
  Frame, hello, ready, Library, authenticated, run_service_handshake, run_client_handshake,
  start_service, start_client, make_offer, make_confirm, make_hello, make_claim, end_client, offer,
  claim, confirm, ClientHandshake,
}
use ptransfer_cli.Tor.Handshake.Begun.{IsAgreed}
use ptransfer_cli.Tor.Handshake.Authenticated.{
  IsClaimed, IsAnswered, IsConfirmed, run_service_handshake-IsClaimed,
  run_client_handshake-IsConfirmed,
}
use ptransfer_cli.Tor.Handshake.Secrecy.{has_no_confirm, run_service_handshake-has_no_confirm}
use ptransfer_cli.Tor.Handshake.Honest.{run_service_handshake-run_client_handshake}
use ptransfer_cli.Wire.{TransferMetadata, identity}

abbrev onion : List ℕ
onion = codes "abc.onion:9735"

abbrev described : TransferMetadata
described = record {
  content_type = codes "file";
  file_name = codes "report.pdf";
  file_size = 4096;
  content_encoding = identity;
  mime_type = codes "text/plain";
}

abbrev library : Library
library = record {
  curve = toy_curve;
  order = 97;
  sha256 = λ xs. xs;
  expand = λ s r i n. some (length i ∷ replicate (n - 1) 0);
  aead = toy_aead;
  to_base64 = λ xs. xs;
  from_base64 = some;
  claim_json = λ b. some (1 ∷ []);
  read_claim = λ xs. some record { body_type = codes "claim"; version = 1; onion = onion };
  confirm_json = λ b. some (2 ∷ []);
  read_confirm = λ xs.
      some record { body_type = codes "confirm"; version = 1; onion = onion; metadata = described };
}

abbrev password : List ℕ
password = codes "ABCDEFGHJKLA"

abbrev draws_a : List (Option (List ℕ))
draws_a = some [] ∷ some (5 ∷ []) ∷ []

abbrev draws_b : List (Option (List ℕ))
draws_b = some (8 ∷ []) ∷ []

abbrev secret : List ℕ
secret = replicate 31 0 ++ 36 ∷ []

abbrev run_a : PakeRun toy_curve
run_a = record { role = sender; secret = secret; ephemeral = 5; message = 8 ∷ replicate 32 0 }

abbrev run_b : PakeRun toy_curve
run_b = record { role = receiver; secret = secret; ephemeral = 8; message = 12 ∷ replicate 32 0 }

started_a : start toy_curve sender secret draws_a ≡ ok run_a
unfolding start compress draw_scalar
started_a = refl

started_b : start toy_curve receiver secret draws_b ≡ ok run_b
unfolding start compress draw_scalar
started_b = refl

service_starts : start_service library password draws_a ≡ ok run_a
unfolding derive_pake_secret start compress draw_scalar
service_starts = refl

client_starts : start_client library password draws_b ≡ ok run_b
unfolding derive_pake_secret start compress draw_scalar
client_starts = refl

run_service_handshake-run_client_handshake_example :
    (first : Frame) × (second : Frame) × (third : Frame) × (fourth : Frame)
    × (keys : TorSessionKeys) × (run_client_handshake library password onion draws_b
          (drawn (replicate 12 7))
          (λ f. true)
          (some second)
          (some fourth)
        ≡ (first ∷ third ∷ [], ok record { keys = keys; metadata = described }))
    × (run_service_handshake library password onion described draws_a
          (some (replicate 16 3))
          (drawn (replicate 12 9))
          (λ f. true)
          (some first)
          (some third)
          (some ready)
        ≡ (second ∷ fourth ∷ [], ok (authenticated keys)))
run_service_handshake-run_client_handshake_example =
    run_service_handshake-run_client_handshake library onion described password (1 ∷ []) (2 ∷ [])
      (replicate 12 7) (replicate 12 9) (replicate 16 3) draws_a draws_b run_a run_b service_starts
      client_starts refl refl refl refl refl refl refl refl (λ xs. refl)
      (λ s r i. (length i ∷ replicate 31 0, refl))

finish-start_example :
    (root : List ℕ) × (finish toy_curve (λ xs. xs) run_a run_b.message (tor onion) ≡ ok root)
    × (finish toy_curve (λ xs. xs) run_b run_a.message (tor onion) ≡ ok root)
finish-start_example =
    finish-start toy_curve (λ xs. xs) secret draws_a draws_b run_a run_b (tor onion) started_a
      started_b

transcript_injective_example :
    (onion ≡ onion)
    × (codes "ptransfer:tor:v1:sender" ≡ codes "ptransfer:tor:v1:sender")
    × (codes "ptransfer:tor:v1:receiver" ≡ codes "ptransfer:tor:v1:receiver")
    × (run_a.message ≡ run_a.message)
    × (run_b.message ≡ run_b.message)
    × (secret ≡ secret)
    × (secret ≡ secret)
transcript_injective_example =
    transcript_injective (tor onion) (tor onion) run_a.message run_a.message run_b.message
      run_b.message secret secret secret secret (omega arith) (omega arith) refl

abbrev claim_key : List ℕ
claim_key = length label_tor_claim ∷ replicate 31 0

abbrev confirm_key : List ℕ
confirm_key = length label_tor_confirm ∷ replicate 31 0

abbrev keys : TorSessionKeys
keys = record {
  claim = claim_key;
  confirm = confirm_key;
  content = length label_tor_content ∷ replicate 31 0;
}

-- What the client seals, in the shape that it travels in.
abbrev sealed_claim : List ℕ
sealed_claim = replicate 12 7 ++ toy_seal claim_key (replicate 12 7) [] (1 ∷ [])

abbrev sealed_confirm : List ℕ
sealed_confirm = replicate 12 9 ++ toy_seal confirm_key (replicate 12 9) [] (2 ∷ [])

service_ready :
    (run_service_handshake library password onion described draws_a
      (some (replicate 16 3))
      (drawn (replicate 12 9))
      (λ f. true)
      (some (hello 1 run_b.message))
      (some (claim sealed_claim))
      (some ready)).1
    ≡ ok (authenticated keys)
unfolding run_service_handshake make_offer make_confirm derive_pake_secret start compress
    draw_scalar finish transcript tor_session_keys is_valid_pake_message decrypt decrypt_with_aad
    encrypt encrypt_with_aad
service_ready = refl

run_service_handshake-IsClaimed_example :
    (found : TorSessionKeys) × IsAgreed library password onion draws_a
      (some (replicate 16 3))
      (some (hello 1 run_b.message))
      found
    × IsClaimed library onion found (some (claim sealed_claim))
    × IsAnswered library found (authenticated keys) (some ready)
run_service_handshake-IsClaimed_example =
    run_service_handshake-IsClaimed library password onion described draws_a (some (replicate 16 3))
      (drawn (replicate 12 9)) (λ f. true) (some (hello 1 run_b.message))
      (some (claim sealed_claim)) (some ready) (authenticated keys) service_ready

run_service_handshake-has_no_confirm_example :
    (has_no_confirm
        (run_service_handshake library password onion described draws_a
          (some (replicate 16 3))
          (drawn (replicate 12 9))
          (λ f. true)
          (some (hello 1 run_b.message))
          (some (claim (replicate 40 0)))
          none).0
      ≡ true)
    ⊎ ((found : TorSessionKeys) × IsAgreed library password onion draws_a
          (some (replicate 16 3))
          (some (hello 1 run_b.message))
          found
        × IsClaimed library onion found (some (claim (replicate 40 0))))
run_service_handshake-has_no_confirm_example =
    run_service_handshake-has_no_confirm library password onion described draws_a
      (some (replicate 16 3)) (drawn (replicate 12 9)) (λ f. true) (some (hello 1 run_b.message))
      (some (claim (replicate 40 0))) none

abbrev client_end : ClientHandshake
client_end = record { keys = keys; metadata = described }

client_ends :
    (run_client_handshake library password onion draws_b
      (drawn (replicate 12 7))
      (λ f. true)
      (some (offer 1 run_a.message (replicate 16 3)))
      (some (confirm sealed_confirm))).1
    ≡ ok client_end
unfolding run_client_handshake make_hello make_claim end_client derive_pake_secret start compress
    draw_scalar finish transcript tor_session_keys is_valid_pake_message decrypt decrypt_with_aad
    encrypt encrypt_with_aad
client_ends = refl

run_client_handshake-IsConfirmed_example :
    IsConfirmed library onion client_end (some (confirm sealed_confirm))
run_client_handshake-IsConfirmed_example =
    run_client_handshake-IsConfirmed library password onion draws_b (drawn (replicate 12 7))
      (λ f. true) (some (offer 1 run_a.message (replicate 16 3))) (some (confirm sealed_confirm))
      client_end client_ends
