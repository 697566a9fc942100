-- ===== src/Server/Pages/Walk.antt =====
-- A client that follows the cursors sees every item once, in order.
use vessica_knowledge_server.Base.{
  ℕ, zero, suc, ◌+◌, ◌-◌, ◌≤◌, ◌<◌, String, true, false, ◌≡◌, refl, sym, inl, inr, ap, ◌∙◌, Option,
  none, some, List, [], ◌∷◌, ◌++◌, ltb, length, take, drop, length-drop, if◌then◌else◌, arith, pos,
  from_int, Bool-cases,
}
use vessica_knowledge_server.Service.Rules.{is_empty}
use vessica_knowledge_server.Server.Pages.{Codec, cursor_offset, offset_of, page_size, paginate}

-- What Go's packages promise: a cursor decodes to the offset that it was made from and is not empty,
-- and the empty text decodes to the empty text, which is no number.
pub record IsCodec (c : Codec) : Type 0 where
  pub decode_encode : (t : String) → c.decode (c.encode t) ≡ some t
  pub atoi_itoa : (n : ℕ) → c.atoi (c.itoa n) ≡ pos n
  pub not_empty : (n : ℕ) → is_empty (c.encode (c.itoa n)) ≡ false
  pub decode_empty : c.decode "" ≡ some ""
  pub atoi_empty : c.atoi "" ≡ pos 0

take-drop : {A : Type 0} (n : ℕ) (xs : List A) → take n xs ++ drop n xs ≡ xs
take-drop zero xs = refl
take-drop (suc n) [] = refl
take-drop (suc n) (x ∷ xs) = ap (λ ys. x ∷ ys) (take-drop n xs)

take_all : {A : Type 0} (n : ℕ) (xs : List A) → length xs ≤ n → take n xs ++ [] ≡ xs
take_all zero [] h = refl
take_all zero (x ∷ xs) h = ground (arith, h)
take_all (suc n) [] h = refl
take_all (suc n) (x ∷ xs) h = ap (λ ys. x ∷ ys) (take_all n xs (omega (arith, h)))

drop_nothing : {A : Type 0} (n : ℕ) → ◌≡◌ {A = List A} [] (drop n [])
drop_nothing zero = refl
drop_nothing (suc n) = refl

drop-drop : {A : Type 0} (o n : ℕ) (xs : List A) → drop n (drop o xs) ≡ drop (o + n) xs
drop-drop zero n xs = ap (λ k. drop k xs) (omega arith)
drop-drop (suc o) zero [] = drop_nothing (suc o + 0)
drop-drop (suc o) (suc n) [] = drop_nothing (suc o + suc n)
drop-drop (suc o) n (x ∷ xs) =
    let step : suc (o + n) ≡ suc o + n = omega arith in
    drop-drop o n xs ∙ ap (λ k. drop k (x ∷ xs)) step

module _ {A : Type 0} (c : Codec) (items : List A) (limit : String) where
  -- The items of a page and of those behind it.
  abbrev with_page : List A → Option (List A) → Option (List A)
  with_page page none = none
  with_page page (some rest) = some (page ++ rest)

  -- The items of the pages from a cursor on, up to one without a cursor; `none` if there is no such page
  -- among the first `fuel`.
  unfoldable pub walk : ℕ → String → Option (List A)
  walk zero cursor = none
  walk (suc fuel) cursor =
      let page = paginate c items cursor limit in
      let rest = walk fuel page.next_cursor in
      with_page page.items (if is_empty page.next_cursor then some [] else rest)

  cursor_offset-encode : IsCodec c → (o : ℕ) → cursor_offset c (c.encode (c.itoa o)) ≡ o
  unfolding cursor_offset
  cursor_offset-encode law o =
      ap (offset_of c) (law.decode_encode (c.itoa o)) ∙ ap from_int (law.atoi_itoa o)

  page_size-positive : 1 ≤ page_size c limit
  unfolding page_size
  page_size-positive = ground arith

  -- A page with more behind it.
  paginate-more :
      (cursor : String) (o : ℕ)
      → cursor_offset c cursor ≡ o
      → o + page_size c limit < length items
      → paginate c items cursor limit ≡ record {
        items = take (page_size c limit) (drop o items);
        next_cursor = c.encode (c.itoa (o + page_size c limit));
      }
  unfolding paginate
  paginate-more cursor o at more =
      let s = page_size c limit in
      let n = length items in
      let fits : ltb n o ≡ false = ground (arith, more) in
      let inside : ltb n (o + s) ≡ false = ground (arith, more) in
      let goes_on : ltb (o + s) n ≡ true = ground (arith, more) in
      let size : o + s - o ≡ s = omega arith in rw (at, fits, inside, goes_on, size) refl

  -- The last page.
  paginate-last :
      (cursor : String) (o : ℕ)
      → cursor_offset c cursor ≡ o
      → o ≤ length items
      → length items ≤ o + page_size c limit
      → paginate c items cursor limit
        ≡ record { items = take (length items - o) (drop o items); next_cursor = "" }
  unfolding paginate
  paginate-last cursor o at within last =
      let s = page_size c limit in
      let n = length items in
      let fits : ltb n o ≡ false = ground (arith, within) in
      let end : (if ltb n (o + s) then n else o + s) ≡ n = ground (arith, last) in
      let stops : ltb n n ≡ false = ground arith in rw (at, fits, end, stops) refl

  -- From an offset within the list on, the pages make up the rest of it.
  walk_from :
      IsCodec c
      → (fuel : ℕ) (cursor : String) (o : ℕ) → cursor_offset c cursor ≡ o
      → o ≤ length items
      → length items < o + fuel
      → walk fuel cursor ≡ some (drop o items)
  unfolding walk
  walk_from law zero cursor o at within enough = ground (arith, within, enough)
  walk_from law (suc fuel) cursor o at within enough =
      let s = page_size c limit in
      elim (Bool-cases (ltb (o + s) (length items))) [
        | inl more ↦
            let next = c.encode (c.itoa (o + s)) in
            let rest : walk fuel next ≡ some (drop (o + s) items) =
              walk_from law fuel next (o + s) (cursor_offset-encode law (o + s))
                (ground (arith, more)) (ground (arith, enough, page_size-positive)) in
            rw (paginate-more cursor o at (ground (arith, more)), law.not_empty (o + s), rest)
              (ap (λ ys. some (take s (drop o items) ++ ys)) (sym (drop-drop o s items))
                ∙ ap (λ ys. some ys) (take-drop s (drop o items)))
        | inr last ↦ rw (paginate-last cursor o at within (ground (arith, last))) (
            ap (λ ys. some ys)
              (take_all (length items - o) (drop o items) (omega (arith, length-drop o items))))
      ]

  -- With the codec's laws: a client that starts without a cursor and follows the cursor of each page comes
  -- to a page that has none, after at most one page per item and one more, and then has all items, in
  -- order and each once.
  pub walk-items : IsCodec c → walk (length items + 1) "" ≡ some items
  unfolding cursor_offset
  walk-items law =
      walk_from law (length items + 1) "" 0
        (ap (offset_of c) law.decode_empty ∙ ap from_int law.atoi_empty) (omega arith) (omega arith)
