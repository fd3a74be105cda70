-- ===== src/Repositories/Pagination.antt =====
-- src/relay/repositories/pagination.py, and what the three listings share: ORDER BY (created_at,
-- id), the row comparison with the cursor, LIMIT and the page. `datetime.isoformat`, `uuid.UUID`
-- and their inverses are parameters, and so is the decoding of UTF-8.
pub mod Cursors
pub mod Ordered
pub mod Walk
use relay_webhooks.Prelude.{
  ℕ, zero, suc, ◌==◌, ◌<◌, ◌≡◌, ◌≢◌, Bool, true, false, ◌&&◌, ◌||◌, Option, none, some, List, [],
  ◌∷◌, ◌++◌, Bytes, All, ltb, length, take, last, filter_by, if◌then◌else◌,
}
use relay_webhooks.Prelude.Base64.{urlsafe_b64encode, urlsafe_b64decode}
use relay_webhooks.Prelude.Result.{Result, ok, err, cursor_decode, ◌>>=◌}

-- A text is the list of its code points.
pub record Texts : Type 0 where
  pub isoformat : ℕ → Bytes
  pub fromisoformat : Bytes → Option ℕ
  pub uuid_text : ℕ → Bytes
  pub parse_uuid : Bytes → Option ℕ
  pub decode_utf8 : Bytes → Option Bytes
  pub fromisoformat_isoformat : (t : ℕ) → fromisoformat (isoformat t) ≡ some t
  pub parse_uuid_text : (i : ℕ) → parse_uuid (uuid_text i) ≡ some i
  pub isoformat_ascii : (t : ℕ) → All (λ c. c < 128) (isoformat t)
  pub uuid_text_ascii : (i : ℕ) → All (λ c. c < 128) (uuid_text i)
  pub isoformat_bar : (t : ℕ) → All (λ c. c ≢ b'|') (isoformat t)
  pub decode_utf8_ascii : (s : Bytes) → All (λ c. c < 128) s → decode_utf8 s ≡ some s

pub record Page (R : Type 0) : Type 0 where
  pub items : List R
  pub next_cursor : Option Bytes
  pub has_more : Bool

-- `raw.split("|", 1)`, unpacked into two parts
unfoldable pub split_bar : Bytes → Option (Bytes × Bytes)
split_bar [] = none
split_bar (c ∷ s) = elim (c == b'|') [
  | true ↦ some ([], s)
  | false ↦ elim (split_bar s) [ none ↦ none | some p ↦ some (c ∷ p.0, p.1) ]
]

abbrev pub then_option : {A B : Type 0} → Option A → (A → Option B) → Option B
then_option none f = none
then_option (some a) f = f a

abbrev pub or_cursor_decode : {A : Type 0} → Option A → Result A
or_cursor_decode none = err cursor_decode
or_cursor_decode (some a) = ok a

module _ (x : Texts) where
  -- The text is ASCII, which `encode` keeps.
  unfoldable pub encode_cursor : ℕ → ℕ → Bytes
  encode_cursor created_at row_id =
      urlsafe_b64encode (x.isoformat created_at ++ (b'|' ∷ x.uuid_text row_id))

  -- the statements under `try`; each may raise ValueError
  unfoldable pub decoded : Bytes → Option (ℕ × ℕ)
  unfolding split_bar
  decoded token = then_option (urlsafe_b64decode token) (λ bytes.
      then_option (x.decode_utf8 bytes) (λ raw. then_option (split_bar raw) (λ parts.
        then_option (x.fromisoformat parts.0)
          (λ created_at. then_option (x.parse_uuid parts.1) (λ id. some (created_at, id))))))

  unfoldable pub decode_cursor : Bytes → Result (ℕ × ℕ)
  unfolding decoded
  decode_cursor token = or_cursor_decode (decoded token)

-- `(created_at, id) > (cursor_created_at, cursor_id)`, read from the right
abbrev pub precedes : ℕ × ℕ → ℕ × ℕ → Bool
precedes (c, i) (d, j) = ltb c d || (c == d && ltb i j)

module _ {R : Type 0} (key : R → ℕ × ℕ) where
  unfoldable pub insert_by_key : R → List R → List R
  insert_by_key r [] = r ∷ []
  insert_by_key r (y ∷ ys) =
      let rest = insert_by_key r ys in if precedes (key r) (key y) then r ∷ y ∷ ys else y ∷ rest

  -- ORDER BY created_at, id
  unfoldable pub order_by_key : List R → List R
  unfolding insert_by_key
  order_by_key [] = []
  order_by_key (r ∷ rs) = insert_by_key r (order_by_key rs)

  abbrev pub after : Option (ℕ × ℕ) → R → Bool
  after none r = true
  after (some c) r = precedes c (key r)

  -- `encode_cursor(page_rows[-1]...) if has_more and page_rows else None`
  abbrev pub cursor_of : Texts → Bool → Option R → Option Bytes
  cursor_of x false r = none
  cursor_of x true none = none
  cursor_of x true (some r) = some (encode_cursor x (key r).0 (key r).1)

  -- the page, from the rows that the query fetched
  unfoldable pub page_of : Texts → ℕ → List R → Page R
  page_of x limit rows =
      let has_more = ltb limit (length rows) in
      let page_rows = take limit rows in
      record {
        items = page_rows;
        next_cursor = cursor_of x has_more (last page_rows);
        has_more = has_more;
      }

  -- the rows of a table that the WHERE clause keeps, from the cursor on
  unfoldable pub select_page : Texts → ℕ → List R → Option (ℕ × ℕ) → Page R
  unfolding page_of
  select_page x limit matching c =
      page_of x limit (take (suc limit) (filter_by (after c) (order_by_key matching)))

abbrev pub given_cursor : Texts → Option Bytes → Result (Option (ℕ × ℕ))
given_cursor x none = ok none
given_cursor x (some token) = decode_cursor x token >>= λ c. ok (some c)

module _ {R : Type 0} (key : R → ℕ × ℕ) where
  -- a listing, from the rows that match and the request's cursor and limit
  unfoldable pub list_page : Texts → ℕ → List R → Option Bytes → Result (Page R)
  unfolding select_page
  list_page x limit matching cursor =
      given_cursor x cursor >>= λ c. ok (select_page key x limit matching c)
