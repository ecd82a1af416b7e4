-- ===== src/Pm/Client/Pages.antt =====
-- When `get_paginated` ends, and with what.
use agentic_dev_ops.Prelude.{
  ℕ, zero, suc, ◌+◌, ◌<◌, ◌≡◌, refl, sym, ap, ◌∙◌, ◌⊎◌, inl, inr, true, false, Option, none, some,
  List, [], ◌∷◌, ◌++◌, length, length-append, concat, ltb, arith,
}
use mathlib.Core.List.{append_assoc, append-nil}
use agentic_dev_ops.Prelude.Int.{ℤ, pos}
use agentic_dev_ops.Prelude.Text.{Text}
use agentic_dev_ops.Pm.Client.{
  Result, ok, Page, PageParams, by_page, by_cursor, params_for, by_total, next_of, follow, on_page,
  pages_from, get_paginated,
}

module _ {A : Type 0} (page_size : ℕ) (get_page : PageParams → Result (Option (Page A))) where
  -- A platform that counts its pages: no cursors, the number of all items on each page, and no page
  -- behind the first is empty.
  abbrev pub ServesPages : (total page : ℕ) → List A → List (List A) → Type 0
  ServesPages total page p [] =
      get_page (by_page page page_size)
      ≡ ok (some (record { items = p; next_cursor = none; total = some (pos total) }))
  ServesPages total page p (q ∷ ps) =
      (get_page (by_page page page_size)
        ≡ ok (some (record { items = p; next_cursor = none; total = some (pos total) })))
      × (0 < length q)
      × ServesPages total (suc page) q ps

  -- A platform with cursors: each page but the last names the next one.
  abbrev pub ServesCursors : PageParams → List A → List (List A) → Type 0
  ServesCursors at p [] =
      get_page at ≡ ok (some (record { items = p; next_cursor = none; total = none }))
  ServesCursors at p (q ∷ ps) =
      (c : ℕ) × (rest : Text) × (total : Option ℤ) × (get_page at
        ≡ ok (some (record { items = p; next_cursor = some (c ∷ rest); total = total })))
      × ServesCursors (by_cursor (c ∷ rest)) q ps

  pages_from-pages :
      (total page : ℕ) (items p : List A) (ps : List (List A))
      → total ≡ length items + length (concat (p ∷ ps))
      → ServesPages total page p ps
      → pages_from page_size get_page (suc (length ps)) none page items
        ≡ some (ok (items ++ concat (p ∷ ps)))
  unfolding pages_from on_page follow next_of by_total
  pages_from-pages total page items p [] size e =
      let all : ltb (length (items ++ p) + 0) (total + 0) ≡ false =
        let n = length-append items p in let m = length-append p [] in ground arith in
      rw (e, all) (ap (λ l. some (ok (items ++ l))) (sym (append-nil p)))
  pages_from-pages total page items p (q ∷ ps) size (e, more, h) =
      let n = length-append items p in
      let m = length-append p (q ++ concat ps) in
      let k = length-append q (concat ps) in
      let some_left : ltb (length (items ++ p) + 0) (total + 0) ≡ true = ground arith in
      rw (e, some_left)
        (pages_from-pages total (suc page) (items ++ p) q ps (omega (arith, n, m, size)) h
          ∙ ap (λ l. some (ok l)) (append_assoc items p (q ++ concat ps)))

  pages_from-cursors :
      (cursor : Option Text) (page : ℕ) (items p : List A) (ps : List (List A))
      → ServesCursors (params_for page_size get_page cursor page) p ps
      → pages_from page_size get_page (suc (length ps)) cursor page items
        ≡ some (ok (items ++ concat (p ∷ ps)))
  unfolding pages_from on_page follow next_of by_total
  pages_from-cursors cursor page items p [] e =
      rw e (ap (λ l. some (ok (items ++ l))) (sym (append-nil p)))
  pages_from-cursors cursor page items p (q ∷ ps) (c, rest, total, e, h) = rw e (
      pages_from-cursors (some (c ∷ rest)) page (items ++ p) q ps h
      ∙ ap (λ l. some (ok l)) (append_assoc items p (q ++ concat ps)))

  -- What a platform answers that has these pages, by number or by cursor.
  abbrev pub Serves : List A → List (List A) → Type 0
  Serves p ps =
      ServesPages (length (concat (p ∷ ps))) 1 p ps ⊎ ServesCursors (by_page 1 page_size) p ps

  -- If the platform has these pages, and serves them by number with the number of all items and no
  -- empty page behind the first, or by cursors of which only the last page has none (and no total
  -- there), then `get_paginated` returns the items of all the pages in order, and asks for no more
  -- pages than there are.
  pub get_paginated-Serves :
      (p : List A) (ps : List (List A))
      → Serves p ps
      → get_paginated page_size get_page (suc (length ps)) ≡ some (ok (concat (p ∷ ps)))
  unfolding get_paginated
  get_paginated-Serves p ps (inl h) =
      pages_from-pages (length (concat (p ∷ ps))) 1 [] p ps (omega arith) h
  get_paginated-Serves p ps (inr h) = pages_from-cursors none 1 [] p ps h

  stuck :
      (fuel page total : ℕ)
      → ((n : ℕ)
          → get_page (by_page n page_size)
            ≡ ok (some (record { items = []; next_cursor = none; total = some (pos (suc total)) })))
      → pages_from page_size get_page fuel none page [] ≡ none
  unfolding pages_from on_page follow next_of by_total
  stuck zero page total h = refl
  stuck (suc fuel) page total h =
      let short : ltb 0 (suc total + 0) ≡ true = ground arith in
      rw (h page, short) (stuck fuel (suc page) total h)

  -- If the platform reports a positive total and every page is empty, `get_paginated` never returns.
  pub get_paginated_diverges :
      (total : ℕ)
      → ((n : ℕ)
          → get_page (by_page n page_size)
            ≡ ok (some (record { items = []; next_cursor = none; total = some (pos (suc total)) })))
      → (fuel : ℕ) → get_paginated page_size get_page fuel ≡ none
  unfolding get_paginated
  get_paginated_diverges total h fuel = stuck fuel 1 total h
