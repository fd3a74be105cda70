-- ===== src/Repositories/Pagination/Cursors.antt =====
-- A cursor is read back as the row that it was made of.
use relay_webhooks.Prelude.{
  ℕ, ◌==◌, ◌<◌, ◌≡◌, ◌≢◌, refl, some, [], ◌∷◌, ◌++◌, Bytes, All, All-append, All-map, arith, false,
}
use relay_webhooks.Prelude.Base64.{decode-encode}
use relay_webhooks.Prelude.Result.{ok}
use relay_webhooks.Repositories.Pagination.{
  Texts, split_bar, encode_cursor, decode_cursor, given_cursor,
}

split_bar-first :
    (s rest : Bytes) → All (λ c. c ≢ b'|') s → split_bar (s ++ (b'|' ∷ rest)) ≡ some (s, rest)
unfolding split_bar
split_bar-first [] rest h = refl
split_bar-first (c ∷ s) rest h =
    let differs : (c == b'|') ≡ false = ground (arith, h.0) in
    rw (split_bar, differs, split_bar-first s rest h.1) refl

module _ (x : Texts) where
  -- Every cursor that the API issues is one that it reads back as the same row.
  pub decode_cursor-encode_cursor :
      (created_at row_id : ℕ)
      → decode_cursor x (encode_cursor x created_at row_id) ≡ ok (created_at, row_id)
  unfolding decode_cursor encode_cursor
  decode_cursor-encode_cursor created_at row_id =
      let raw = x.isoformat created_at ++ (b'|' ∷ x.uuid_text row_id) in
      let ascii : All (λ (c : ℕ). c < 128) raw =
        All-append (λ (c : ℕ). c < 128) (x.isoformat created_at) (b'|' ∷ x.uuid_text row_id)
          (x.isoformat_ascii created_at) (omega arith, x.uuid_text_ascii row_id) in
      let bytes : All (λ (c : ℕ). c < 256) raw = All-map (λ c h. omega arith) raw ascii in
      rw
        (
          decode-encode raw bytes,
          x.decode_utf8_ascii raw ascii,
          split_bar-first (x.isoformat created_at) (x.uuid_text row_id)
              (x.isoformat_bar created_at),
          x.fromisoformat_isoformat created_at,
          x.parse_uuid_text row_id,
        )
        refl

  pub given_cursor-encode :
      (created_at row_id : ℕ)
      → given_cursor x (some (encode_cursor x created_at row_id)) ≡ ok (some (created_at, row_id))
  given_cursor-encode created_at row_id = rw (decode_cursor-encode_cursor created_at row_id) refl
