-- ===== src/Pm/Client.antt =====
-- services/pm-integration/devmanager_pm_integration/client.py: requests with retries, and pages.
-- What the platform answers to each request is a parameter; times are in the unit of the backoff,
-- and the jitter is the parameter `jitter`.
pub mod Retries
pub mod Pages
use agentic_dev_ops.Prelude.{
  ℕ, zero, suc, ◌+◌, ◌*◌, ◌≡◌, refl, Bool, true, false, ◌&&◌, ◌||◌, Option, none, some, List, [],
  ◌∷◌, ◌++◌, ltb, leb, nat_beq, length, is_nil, if◌then◌else◌,
}
use agentic_dev_ops.Prelude.Int.{ℤ, pos, ltb_ℤ}
use agentic_dev_ops.Prelude.Text.{Text}

pub data PmError : Type 0 where
  timed_out transport_error auth_failed not_found rate_limited server_error refused bad_payload :
      PmError

pub data Result (A : Type 0) : Type 0 where
  ok : A → Result A
  raised : PmError → Result A

-- What one request gives: an exception of httpx, or a response. `retry_after` is the header, read
-- as a number.
pub data Reply (B : Type 0) : Type 0 where
  timeout : Reply B
  transport : Reply B
  response : (status : ℕ) → (retry_after : Option ℕ) → B → Reply B

-- What a reply means for the loop: return, raise at once, or try again. A retry names the error of
-- the last attempt and the time that the server asks for.
pub data Verdict (B : Type 0) : Type 0 where
  done : B → Verdict B
  fatal : PmError → Verdict B
  retry : PmError → Option ℕ → Verdict B

module _ {B : Type 0} where
  unfoldable pub verdict_of : Reply B → Verdict B
  verdict_of timeout = retry timed_out none
  verdict_of transport = retry transport_error none
  verdict_of (response status retry_after body) =
      if leb 200 status && ltb status 300
      then done body
      else if nat_beq status 401 || nat_beq status 403
      then fatal auth_failed
      else if nat_beq status 404
      then fatal not_found
      else if nat_beq status 429
      then retry rate_limited retry_after
      else if leb 500 status && ltb status 600
      then retry server_error none
      else fatal refused

-- `2 ** n`
unfoldable pub power_of_2 : ℕ → ℕ
power_of_2 zero = 1
power_of_2 (suc n) = 2 * power_of_2 n

module _ (base_backoff : ℕ) (jitter : ℕ → ℕ) where
  -- How long `_sleep` sleeps after attempt `n`.
  unfoldable pub sleep_time : ℕ → Option ℕ → ℕ
  unfolding power_of_2
  sleep_time n none = base_backoff * power_of_2 n + jitter n
  sleep_time n (some r) = if ltb 0 r then r else base_backoff * power_of_2 n + jitter n

  module _ {B : Type 0} (send : ℕ → Reply B) where
    -- What follows a reply: `again` if it asks for a retry and attempts are left.
    unfoldable pub settle : Bool → ℕ → Result B × List ℕ → Verdict B → Result B × List ℕ
    unfolding sleep_time
    settle left n again (done body) = (ok body, [])
    settle left n again (fatal e) = (raised e, [])
    settle left n again (retry e retry_after) =
        if left then (again.0, sleep_time n retry_after ∷ again.1) else (raised e, [])

    -- The attempts from number `n` on, when `left` more may follow: what the request gives, and how
    -- long it slept between the attempts.
    unfoldable pub request_from : ℕ → ℕ → Result B × List ℕ
    unfolding verdict_of settle
    request_from zero n = settle false n (raised refused, []) (verdict_of (send n))
    request_from (suc left) n = settle true n (request_from left (suc n)) (verdict_of (send n))

    unfoldable pub request : ℕ → Result B × List ℕ
    unfolding request_from
    request max_retries = request_from max_retries 0

-- A page: its items, the cursor of the next one, and the number of all items. A page that is no
-- JSON object, or whose `items` is no list, is `none` where it is read.
pub record Page (A : Type 0) : Type 0 where
  pub items : List A
  pub next_cursor : Option Text
  pub total : Option ℤ

-- The parameters of the request for a page.
pub data PageParams : Type 0 where
  by_cursor : Text → PageParams
  by_page : (page page_size : ℕ) → PageParams

module _ {A : Type 0} (page_size : ℕ) (get_page : PageParams → Result (Option (Page A))) where
  abbrev pub params_for : Option Text → ℕ → PageParams
  params_for none page = by_page page page_size
  params_for (some c) page = by_cursor c

  -- Whether the loop goes on, and with which cursor and page.
  pub data Next : Type 0 where
    stop : Next
    go_on : Option Text → ℕ → Next

  -- `isinstance(total, int) and len(items) < total`
  unfoldable pub by_total : Option Text → Option ℤ → ℕ → ℕ → Next
  by_total cursor none count page = stop
  by_total cursor (some total) count page =
      if ltb_ℤ (pos count) total then go_on cursor (suc page) else stop

  -- `count` is the number of items so far. An empty cursor is none for the test alone.
  unfoldable pub next_of : Option Text → Option ℤ → ℕ → ℕ → Next
  unfolding by_total
  next_of none total count page = by_total none total count page
  next_of (some c) total count page =
      if is_nil c then by_total (some c) total count page else go_on (some c) page

  -- Ends with the items so far, or goes on with `loop`.
  unfoldable pub follow :
      (Option Text → ℕ → List A → Option (Result (List A)))
      → List A
      → Next
      → Option (Result (List A))
  follow loop items stop = some (ok items)
  follow loop items (go_on cursor page) = loop cursor page items

  unfoldable pub on_page :
      (Option Text → ℕ → List A → Option (Result (List A)))
      → ℕ
      → List A
      → Result (Option (Page A))
      → Option (Result (List A))
  unfolding follow next_of
  on_page loop page items (raised e) = some (raised e)
  on_page loop page items (ok none) = some (raised bad_payload)
  on_page loop page items (ok (some p)) =
      follow loop (items ++ p.items)
        (next_of p.next_cursor p.total (length (items ++ p.items)) page)

  -- The `while True` loop, on fuel: `none` is that the fuel ran out.
  unfoldable pub pages_from : ℕ → Option Text → ℕ → List A → Option (Result (List A))
  unfolding on_page
  pages_from zero cursor page items = none
  pages_from (suc fuel) cursor page items =
      on_page (pages_from fuel) page items (get_page (params_for cursor page))

  unfoldable pub get_paginated : ℕ → Option (Result (List A))
  unfolding pages_from
  get_paginated fuel = pages_from fuel none 1 []
