-- ===== src/Events/Order.antt =====
-- Which handlers an event of Core/Event.h calls.
use bugat.Common.{
  ℕ, ◌+◌, ◌%◌, ◌^◌, ◌≤◌, ◌<◌, ◌≡◌, refl, sym, ap, ◌∙◌, Bool, true, false, ◌||◌, List, [], ◌∷◌, ◌++◌,
  ◌==◌, length, append_assoc, append-nil, if_cases, if◌then◌else◌, arith,
}
use bugat.Events.{
  Subscription, Event, new_event, subscribe, erase_first, unsubscribe, invoke_all, invoke, Call,
  call_subscribe, call_unsubscribe, run,
}

-- Whether a list of calls unsubscribes an id.
abbrev pub ends : ℕ → List Call → Bool
ends id [] = false
ends id (call_subscribe handler ∷ calls) = ends id calls
ends id (call_unsubscribe i ∷ calls) = (id == i) || ends id calls

-- The handlers that calls leave subscribed, where `n` subscriptions came before: each whose id, its
-- number, is not unsubscribed behind it.
abbrev pub remaining : List Call → ℕ → List ℕ
remaining [] n = []
remaining (call_subscribe handler ∷ calls) n =
    if ends (n + 1) calls then remaining calls (n + 1) else handler ∷ remaining calls (n + 1)
remaining (call_unsubscribe id ∷ calls) n = remaining calls n

-- Those of earlier subscriptions.
survivors : List Subscription → List Call → List ℕ
survivors [] calls = []
survivors (s ∷ ss) calls =
    if ends s.id calls then survivors ss calls else s.handler ∷ survivors ss calls

-- Ids grow from `low` on, up to `high`.
abbrev Between : ℕ → ℕ → List Subscription → Type 0
Between low high [] = low ≤ high
Between low high (s ∷ ss) = (low < s.id) × Between s.id high ss

survivors-append :
    (ss : List Subscription) (s : Subscription) (calls : List Call)
    → survivors (ss ++ s ∷ []) calls
      ≡ survivors ss calls ++ (if ends s.id calls then [] else s.handler ∷ [])
unfolding survivors
survivors-append [] s calls = ground arith
survivors-append (r ∷ ss) s calls = ground (arith, survivors-append ss s calls)

-- An id below the others is none of theirs.
survivors-below :
    (id low high : ℕ) (ss : List Subscription) (calls : List Call)
    → id ≤ low
    → Between low high ss
    → survivors ss (call_unsubscribe id ∷ calls) ≡ survivors ss calls
unfolding survivors
survivors-below id low high [] calls h b = refl
survivors-below id low high (s ∷ ss) calls h b =
    ground (arith, survivors-below id s.id high ss calls (omega arith) b.1)

survivors-erase_first :
    (id low high : ℕ) (ss : List Subscription) (calls : List Call)
    → Between low high ss
    → survivors (erase_first id ss) calls ≡ survivors ss (call_unsubscribe id ∷ calls)
unfolding survivors erase_first
survivors-erase_first id low high [] calls b = refl
survivors-erase_first id low high (s ∷ ss) calls b = ground (
  arith,
  survivors-erase_first id s.id high ss calls b.1,
  survivors-below s.id s.id high ss calls (omega arith) b.1,
)

Between-append :
    (low high : ℕ) (ss : List Subscription) (s : Subscription)
    → high < s.id
    → Between low high ss
    → Between low s.id (ss ++ s ∷ [])
Between-append low high [] s h b = (omega arith, omega arith)
Between-append low high (r ∷ ss) s h b = (b.0, Between-append r.id high ss s h b.1)

Between-weaken :
    (low l high : ℕ) (ss : List Subscription) → l ≤ low → Between low high ss → Between l high ss
Between-weaken low l high [] h b = omega arith
Between-weaken low l high (s ∷ ss) h b = (omega arith, b.1)

Between-erase_first :
    (id low high : ℕ) (ss : List Subscription)
    → Between low high ss
    → Between low high (erase_first id ss)
unfolding erase_first
Between-erase_first id low high [] b = b
Between-erase_first id low high (s ∷ ss) b =
    if_cases (Between low high) (s.id == id) ss (s ∷ erase_first id ss)
      (λ _. Between-weaken s.id low high ss (omega arith) b.1)
      λ _. (b.0, Between-erase_first id s.id high ss b.1)

survivors-nil : (ss : List Subscription) → survivors ss [] ≡ invoke_all ss
unfolding survivors invoke_all
survivors-nil [] = refl
survivors-nil (s ∷ ss) = ap (◌∷◌ s.handler) (survivors-nil ss)

survivors-skip :
    (ss : List Subscription) (handler : ℕ) (calls : List Call)
    → survivors ss (call_subscribe handler ∷ calls) ≡ survivors ss calls
unfolding survivors
survivors-skip [] handler calls = refl
survivors-skip (s ∷ ss) handler calls =
    ap (λ rest. if ends s.id calls then rest else s.handler ∷ rest)
      (survivors-skip ss handler calls)

-- The event after a subscription that does not overflow.
subscribed : ℕ → Event → Event
subscribed handler e = record {
  next_id = e.next_id + 1;
  handlers = e.handlers ++ record { id = e.next_id + 1; handler = handler } ∷ [];
}

subscribe-eq :
    (handler : ℕ) (e : Event)
    → e.next_id + 1 < 2 ^ 32
    → (subscribe handler e).0 ≡ subscribed handler e
unfolding subscribe subscribed
subscribe-eq handler e h =
    let same : (e.next_id + 1) % 2 ^ 32 ≡ e.next_id + 1 = omega arith in
    ap
      (λ i. record {
        next_id = i;
        handlers = e.handlers ++ record { id = i; handler = handler } ∷ [];
      })
      same

-- What an event calls after more calls.
run-invoke :
    (calls : List Call) (e : Event)
    → Between 0 e.next_id e.handlers
    → e.next_id + length calls < 2 ^ 32
    → invoke (run calls e) ≡ survivors e.handlers calls ++ remaining calls e.next_id
unfolding run unsubscribe subscribed
run-invoke [] e b small = sym (append-nil (survivors e.handlers []) ∙ survivors-nil e.handlers)
run-invoke (call_subscribe handler ∷ calls) e b small =
    let s : Subscription = record { id = e.next_id + 1; handler = handler } in
    ap (λ x. invoke (run calls x)) (subscribe-eq handler e (omega arith))
    ∙ run-invoke calls (subscribed handler e)
        (Between-append 0 e.next_id e.handlers s (omega arith) b) (omega arith)
    ∙ ap (λ x. x ++ remaining calls (e.next_id + 1)) (survivors-append e.handlers s calls)
    ∙ if_last (survivors e.handlers calls) (ends (e.next_id + 1) calls)
    ∙ ap (λ x. x ++ remaining (call_subscribe handler ∷ calls) e.next_id)
        (sym (survivors-skip e.handlers handler calls))
  where
    if_last :
        (xs : List ℕ) (ended : Bool)
        → (xs ++ (if ended then [] else handler ∷ [])) ++ remaining calls (e.next_id + 1)
          ≡ xs
            ++ (if ended
                then remaining calls (e.next_id + 1)
                else handler ∷ remaining calls (e.next_id + 1))
    if_last xs true = ap (λ x. x ++ remaining calls (e.next_id + 1)) (append-nil xs)
    if_last xs false = append_assoc xs (handler ∷ []) (remaining calls (e.next_id + 1))
run-invoke (call_unsubscribe id ∷ calls) e b small =
    run-invoke calls (record e { handlers = erase_first id e.handlers })
      (Between-erase_first id 0 e.next_id e.handlers b) (omega arith)
    ∙ ap (λ x. x ++ remaining calls e.next_id)
        (survivors-erase_first id 0 e.next_id e.handlers calls b)

-- After any subscriptions and unsubscriptions, fewer than 2 ^ 32, `Invoke` calls the handlers in
-- the order of their subscriptions, each once, just those whose id, which is the number of the
-- subscription, was not unsubscribed behind it; other ids have no effect.
pub invoke-run :
    (calls : List Call) → length calls < 2 ^ 32 → invoke (run calls new_event) ≡ remaining calls 0
unfolding survivors
invoke-run calls small = run-invoke calls new_event (omega arith) (omega arith)
