-- ===== src/NostrFile/Codec/Additional.antt =====
-- What the additional data of a piece binds.
use ptransfer_cli.Common.{
  ℕ, ◌^◌, ◌<◌, ◌≡◌, List, ◌∷◌, ◌++◌, ap, sym, ◌∙◌, true, not, ◌==◌, all, some_injective,
}
use ptransfer_cli.Common.Decimal.{decimal, decimal-digits, decimal_injective}
use ptransfer_cli.Common.Text.{strip_prefix, strip_prefix-append, no_colon, split_once_injective}
use ptransfer_cli.NostrFile.{nostr_file_aad_prefix}
use ptransfer_cli.NostrFile.Codec.{chunk_aad}

-- An identifier without a colon, as the derived ones of 32 hexadecimal digits are.
abbrev pub HasNoColon : List ℕ → Type 0
HasNoColon transfer_id = all (λ c. not (c == b':')) transfer_id ≡ true

prefix_injective : (ps xs ys : List ℕ) → ps ++ xs ≡ ps ++ ys → xs ≡ ys
prefix_injective ps xs ys e =
    some_injective
      (sym (strip_prefix-append ps xs) ∙ ap (strip_prefix ps) e ∙ strip_prefix-append ps ys)

-- Pieces with the same additional data are of one transfer, at one position and of one total: for
-- identifiers without a colon, and numbers that a `usize` holds.
pub chunk_aad_injective :
    (transfer_id transfer_id' : List ℕ) (index index' total total' : ℕ)
    → HasNoColon transfer_id
    → HasNoColon transfer_id'
    → index < 2 ^ 64
    → index' < 2 ^ 64
    → total < 2 ^ 64
    → total' < 2 ^ 64
    → chunk_aad transfer_id index total ≡ chunk_aad transfer_id' index' total'
    → (transfer_id ≡ transfer_id') × (index ≡ index') × (total ≡ total')
unfolding chunk_aad
chunk_aad_injective transfer_id transfer_id' index index' total total' h h' i i' t t' e =
    let colon = prefix_injective nostr_file_aad_prefix _ _ e in
    let tail = prefix_injective (b':' ∷ List.[]) _ _ colon in
    let (same_id, rest) = split_once_injective b':' transfer_id transfer_id' _ _ h h' tail in
    let (same_index, same_total) =
      split_once_injective b':' (decimal index) (decimal index') _ _
        (no_colon (decimal index) (decimal-digits index))
        (no_colon (decimal index') (decimal-digits index')) rest in
    (
      same_id,
      decimal_injective index index' i i' same_index,
      decimal_injective total total' t t' same_total,
    )
