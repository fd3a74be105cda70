-- ===== src/Repositories/Pagination/Walk.antt =====
-- A client that follows the cursors of a listing gets every row once, in order.
use relay_webhooks.Prelude.{
  ℕ, zero, suc, ◌<◌, ◌≡◌, refl, ap, sym, ◌∙◌, true, false, Option, none, some, List, [], ◌∷◌, ◌++◌,
  Bytes, arith, ltb, length, take, drop, filter_by, get_elem?, inl, inr, Bool-cases, take-take-suc,
  take_all, take-append-drop, length-drop, length-take-suc, map, map-append, get_elem_lt, last-take,
  get_elem-All, filter_by-All, filter_by_stronger,
}
use relay_webhooks.Prelude.Result.{Result, ok, err, other_error, ◌>>=◌}
use relay_webhooks.Repositories.Pagination.{
  Texts, Page, encode_cursor, order_by_key, after, page_of, select_page, given_cursor, list_page,
}
use relay_webhooks.Repositories.Pagination.Cursors.{given_cursor-encode}
use relay_webhooks.Repositories.Pagination.Ordered.{
  Ascends, filter-Ascends, after-drop, precedes_trans,
}

-- A client asks for a page, then for the page at its cursor, and stops at a page without one. It
-- gives up after `fuel` pages.
abbrev pub go_on :
    {R : Type 0} → (Option Bytes → Result (List R)) → List R → Option Bytes → Result (List R)
go_on later items none = ok items
go_on later items (some c) = later (some c) >>= λ rest. ok (items ++ rest)

unfoldable pub walk :
    {R : Type 0} → ℕ → (Option Bytes → Result (Page R)) → Option Bytes → Result (List R)
walk zero ask cursor = err other_error
walk (suc fuel) ask cursor =
    ask cursor >>= λ page. go_on (walk fuel ask) page.items page.next_cursor

module _ {R : Type 0} (key : R → ℕ × ℕ) (x : Texts) (n : ℕ) (matching : List R) where
  rest_of : Option (ℕ × ℕ) → List R
  rest_of c = filter_by (after key c) (order_by_key key matching)

  -- a page that takes all that is left
  last_page :
      (c : Option (ℕ × ℕ))
      → ltb (suc n) (length (rest_of c)) ≡ false
      → select_page key x (suc n) matching c
        ≡ record { items = rest_of c; next_cursor = none; has_more = false }
  unfolding select_page page_of rest_of
  last_page c h =
      rw
        (
          length-take-suc (suc n) (rest_of c),
          h,
          take-take-suc (suc n) (rest_of c),
          take_all (suc n) (rest_of c) (ground arith),
        )
        refl

  -- a page with a row that ends it, and more rows behind it
  more_page :
      (c : Option (ℕ × ℕ)) (z : R)
      → ltb (suc n) (length (rest_of c)) ≡ true
      → get_elem? (rest_of c) n ≡ some z
      → select_page key x (suc n) matching c ≡ record {
        items = take (suc n) (rest_of c);
        next_cursor = some (encode_cursor x (key z).0 (key z).1);
        has_more = true;
      }
  unfolding select_page page_of rest_of
  more_page c z h at_n =
      rw
        (
          length-take-suc (suc n) (rest_of c),
          h,
          take-take-suc (suc n) (rest_of c),
          last-take n (rest_of c) z at_n,
        )
        refl

  after_mono :
      (c : Option (ℕ × ℕ)) (z r : R)
      → after key c z ≡ true
      → after key (some (key z)) r ≡ true
      → after key c r ≡ true
  after_mono none z r h h' = refl
  after_mono (some k) z r h h' = precedes_trans k (key z) (key r) h h'

  -- what is left after the row that ends a page
  rest-drop :
      (c : Option (ℕ × ℕ)) (z : R)
      → Ascends key (order_by_key key matching)
      → get_elem? (rest_of c) n ≡ some z
      → rest_of (some (key z)) ≡ drop (suc n) (rest_of c)
  unfolding rest_of
  rest-drop c z sorted at_n =
      let passes =
        get_elem-All (λ (r : R). after key c r ≡ true) (rest_of c) n z
          (filter_by-All (after key c) (order_by_key key matching)) at_n in
      sym (
        filter_by_stronger (after key (some (key z))) (after key c) (λ r. after_mono c z r passes)
          (order_by_key key matching))
      ∙ after-drop key n (rest_of c) z
          (filter-Ascends key (after key c) (order_by_key key matching) sorted) at_n

  asked :
      (c : Option (ℕ × ℕ)) (token : Option Bytes) (page : Page R)
      → given_cursor x token ≡ ok c
      → select_page key x (suc n) matching c ≡ page
      → list_page key x (suc n) matching token ≡ ok page
  unfolding list_page
  asked c token page read h = rw (read, h) refl

  -- From any cursor that is read back, the walk gets the rows after it.
  walk-rest :
      (fuel : ℕ) (c : Option (ℕ × ℕ)) (token : Option Bytes)
      → Ascends key (order_by_key key matching)
      → given_cursor x token ≡ ok c
      → length (rest_of c) < fuel
      → walk fuel (list_page key x (suc n) matching) token ≡ ok (rest_of c)
  unfolding walk
  walk-rest zero c token sorted read enough = absurd (omega arith)
  walk-rest (suc fuel) c token sorted read enough =
      elim (Bool-cases (ltb (suc n) (length (rest_of c)))) [
        | inr few ↦ rw (asked c token _ read (last_page c few)) refl
        | inl many ↦
            let longer : suc n < length (rest_of c) = ground arith in
            let (z, at_n) = get_elem_lt n (rest_of c) (omega arith) in
            let left = rest-drop c z sorted at_n in
            let later =
              walk-rest fuel (some (key z)) (some (encode_cursor x (key z).0 (key z).1)) sorted
                (given_cursor-encode x (key z).0 (key z).1)
                (rw left (omega (arith, length-drop (suc n) (rest_of c)))) in
            rw
              (
                asked c token _ read (more_page c z many at_n),
                later,
                left,
                take-append-drop (suc n) (rest_of c),
              )
              refl
      ]

after-none : {R : Type 0} (key : R → ℕ × ℕ) (rs : List R) → filter_by (after key none) rs ≡ rs
after-none key [] = refl
after-none key (r ∷ rs) = ap (λ t. r ∷ t) (after-none key rs)

-- Over rows that ascend, a client that asks for pages of at least one row, one page more often than
-- there are rows at most, gets exactly the rows, in order.
pub walk-list_page :
    {R : Type 0} (key : R → ℕ × ℕ) (x : Texts) (n : ℕ) (matching : List R)
    → Ascends key (order_by_key key matching)
    → walk (suc (length (order_by_key key matching))) (list_page key x (suc n) matching) none
      ≡ ok (order_by_key key matching)
unfolding rest_of
walk-list_page key x n matching sorted =
    let all = after-none key (order_by_key key matching) in
    walk-rest key x n matching (suc (length (order_by_key key matching))) none none sorted refl
      (rw all (omega arith))
    ∙ ap ok all

module _ {A B : Type 0} (f : A → B) where
  abbrev pub page_map : Result (Page A) → Result (Page B)
  page_map (err e) = err e
  page_map (ok p) =
      ok (record { items = map f p.items; next_cursor = p.next_cursor; has_more = p.has_more })

  abbrev pub result_map : Result (List A) → Result (List B)
  result_map (err e) = err e
  result_map (ok xs) = ok (map f xs)

  append-map :
      (items : List A) (r : Result (List A))
      → (result_map r >>= λ rest. ok (map f items ++ rest))
        ≡ result_map (r >>= λ rest. ok (items ++ rest))
  append-map items (err e) = refl
  append-map items (ok rest) = ap ok (sym (map-append f items rest))

  go_on-map :
      (later : Option Bytes → Result (List A)) (later' : Option Bytes → Result (List B))
      → ((c : Option Bytes) → later' c ≡ result_map (later c))
      → (items : List A) (o : Option Bytes)
      → go_on later' (map f items) o ≡ result_map (go_on later items o)
  go_on-map later later' same items none = refl
  go_on-map later later' same items (some c) =
      rw (same (some c)) (append-map items (later (some c)))

  go_on-page :
      (later : Option Bytes → Result (List A)) (later' : Option Bytes → Result (List B))
      → ((c : Option Bytes) → later' c ≡ result_map (later c))
      → (r : Result (Page A))
      → (page_map r >>= λ page. go_on later' page.items page.next_cursor)
        ≡ result_map (r >>= λ page. go_on later page.items page.next_cursor)
  go_on-page later later' same (err e) = refl
  go_on-page later later' same (ok p) = go_on-map later later' same p.items p.next_cursor

  -- Where each page is the image of a page, the walk gets the image of the rows.
  pub walk-page_map :
      (ask : Option Bytes → Result (Page A)) (ask' : Option Bytes → Result (Page B))
      → ((c : Option Bytes) → ask' c ≡ page_map (ask c))
      → (fuel : ℕ) (cursor : Option Bytes)
      → walk fuel ask' cursor ≡ result_map (walk fuel ask cursor)
  unfolding walk
  walk-page_map ask ask' same zero cursor = refl
  walk-page_map ask ask' same (suc fuel) cursor =
      rw (same cursor) (
        go_on-page (walk fuel ask) (walk fuel ask') (walk-page_map ask ask' same fuel) (ask cursor))
