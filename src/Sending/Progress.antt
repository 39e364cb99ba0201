-- ===== src/Sending/Progress.antt =====
-- The loop of `Connection::Send` in Base/Connection.cpp sends everything, if the socket takes at
-- least a byte each time.
use bugat.Common.{
  ℕ, ◌+◌, ◌≤◌, ◌<◌, ◌≡◌, ◌⊎◌, refl, sym, ap, ◌∙◌, inl, inr, List, [], ◌∷◌, ◌++◌, true, false, arith,
  length, concat, append-nil, map, Bool, if_cases, length-append, length-drop, if◌then◌else◌, subst,
}
use bugat.Sending.Helper.{helper_update-drop, helper_update-nil}
use bugat.Sending.Order.{
  bytes_of, pending, pushed, IsTidy, concat-append, happen-round-Kept, stream_from,
}
use bugat.Sending.{
  Sender, Packet, Io, moved, Happening, round, helper_update, helper_init, pop_packet, next_packet,
  attempt, after_send, turn, happen, run,
}

-- Bytes and packets that are still to be dealt with.
abbrev pub work : Sender → ℕ
work s =
    length (concat s.bufs)
    + length (bytes_of s.queue)
    + length s.queue
    + (if s.sending then 1 else 0)

record Open (s : Sender) : Type 0 where
  on : s.running ≡ true
  connected : s.disconnected ≡ false

-- What one part of a round does to the work, and to the rest of the state.
record Lowers (d : ℕ) (s s' : Sender) : Type 0 where
  lower : work s' + d ≤ work s
  on : s'.running ≡ s.running
  connected : s'.disconnected ≡ s.disconnected

update-Lowers :
    (s : Sender) (k : ℕ) (bufs : List (List ℕ))
    → helper_update k s.bufs ≡ bufs
    → s.sending ≡ true
    → 0 < k
    → Lowers 1 s (after_send s (moved k))
unfolding after_send
update-Lowers s k [] e busy h = record {
  lower = ground arith;
  on = ground arith;
  connected = ground arith;
}
update-Lowers s k (buf ∷ bufs) e busy h = record {
  lower = ground (arith, left, ap (λ l. length (concat l)) e);
  on = ground arith;
  connected = ground arith;
}
  where
    left : length (concat (helper_update k s.bufs)) + 1 ≤ length (concat s.bufs)
    left = ground (
      arith,
      helper_update-nil k s.bufs,
      ap length (helper_update-drop k s.bufs),
      length-drop k (concat s.bufs),
    )

pop-Lowers :
    (s : Sender) (queue : List Packet)
    → s.queue ≡ queue
    → s.sending ≡ false
    → Lowers 0 s (pop_packet s) × ((pop_packet s).sending ≡ true ⊎ queue ≡ [])
unfolding pop_packet helper_init
pop-Lowers s [] e idle =
    (record { lower = ground arith; on = ground arith; connected = ground arith }, inr refl)
pop-Lowers s (packet ∷ packets) e idle = (
  record {
    lower = ground (
      arith,
      ap length (concat-append s.bufs packet),
      length-append (concat s.bufs) (concat packet),
      length-append (concat packet) (bytes_of packets),
    );
    on = ground arith;
    connected = ground arith;
  },
  inl (ground arith),
)

record Advances (s s' : Sender) : Type 0 where
  lower : (work s' + 1 ≤ work s) ⊎ (work s' ≡ 0)
  on : s'.running ≡ s.running
  connected : s'.disconnected ≡ s.disconnected

-- Where nothing is being sent and nothing is queued, nothing is left to do.
nothing_left : (s : Sender) → s.queue ≡ [] → s.sending ≡ false → IsTidy s → work s ≡ 0
nothing_left s e idle tidy =
    ground (arith, ap (λ q. length (bytes_of q)) e, ap (λ l. length (concat l)) (tidy idle))

busy-Advances : (s : Sender) (k : ℕ) → s.sending ≡ true → 0 < k → Advances s (attempt s (moved k))
unfolding attempt
busy-Advances s k busy h =
    if_cases (Advances s) s.sending (after_send s (moved k)) s
      (λ _.
        let l = update-Lowers s k (helper_update k s.bufs) refl busy h in
        record { lower = inl l.lower; on = l.on; connected = l.connected })
      λ idle. absurd (true≢false (sym busy ∙ idle))
  where
    true≢false : ◌≡◌ {A = Bool} true false → ⊥
    true≢false e = cc

attempt_idle : (s : Sender) (io : Io) → s.sending ≡ false → attempt s io ≡ s
unfolding attempt
attempt_idle s io idle = ground arith

pop_nothing : (s : Sender) → s.queue ≡ [] → pop_packet s ≡ s
unfolding pop_packet
pop_nothing s e = ground arith

idle-Advances :
    (s : Sender) (k : ℕ)
    → s.sending ≡ false
    → IsTidy s
    → 0 < k
    → Advances s (attempt (pop_packet s) (moved k))
idle-Advances s k idle tidy h =
    let (l, next) = pop-Lowers s s.queue refl idle in
    elim next [
      | inl busy ↦
          let a = busy-Advances (pop_packet s) k busy h in
          record {
            lower = after l.lower a.lower;
            on = a.on ∙ l.on;
            connected = a.connected ∙ l.connected;
          }
      | inr none_left ↦
          subst (Advances s)
            (sym (
              ap (λ q. attempt q (moved k)) (pop_nothing s none_left)
              ∙ attempt_idle s (moved k) idle))
            (record {
              lower = inr (nothing_left s none_left idle tidy);
              on = refl;
              connected = refl;
            })
    ]
  where
    after : {a b c : ℕ} → b + 0 ≤ c → (a + 1 ≤ b) ⊎ (a ≡ 0) → (a + 1 ≤ c) ⊎ (a ≡ 0)
    after h (inl p) = inl (omega arith)
    after h (inr p) = inr p

round-Advances :
    (s : Sender) (k : ℕ) → Open s → IsTidy s → 0 < k → Advances s (happen s (round (moved k)))
unfolding happen turn next_packet
round-Advances s k o tidy h =
    if_cases (Advances s) s.running (turn s (moved k)) s
      (λ _.
        if_cases (Advances s) s.disconnected (record s { running = false })
          (attempt (next_packet s) (moved k)) (λ over. absurd (true≢false (sym over ∙ o.connected)))
          λ _.
            if_cases (λ q. Advances s (attempt q (moved k))) s.sending s (pop_packet s)
              (λ busy. busy-Advances s k busy h) λ idle. idle-Advances s k idle tidy h)
      λ off. absurd (true≢false (sym o.on ∙ off))
  where
    true≢false : ◌≡◌ {A = Bool} true false → ⊥
    true≢false e = cc

-- Rounds in which the socket takes bytes.
abbrev pub rounds : List ℕ → List Happening
rounds ks = map (λ k. round (moved k)) ks

abbrev pub AllPositive : List ℕ → Type 0
AllPositive [] = Unit
AllPositive (k ∷ ks) = (0 < k) × AllPositive ks

work_done :
    (s : Sender) (ks : List ℕ)
    → Open s
    → IsTidy s
    → AllPositive ks
    → work s ≤ length ks
    → work (run s (rounds ks)) ≡ 0
unfolding run
work_done s [] o tidy h enough = omega arith
work_done s (k ∷ ks) o tidy h enough =
    let a = round-Advances s k o tidy h.0 in
    work_done (happen s (round (moved k))) ks
      (record { on = a.on ∙ o.on; connected = a.connected ∙ o.connected })
      (happen-round-Kept s (moved k) tidy).tidy h.1 (left a.lower)
  where
    left : {a : ℕ} → (a + 1 ≤ work s) ⊎ (a ≡ 0) → a ≤ length ks
    left (inl p) = omega arith
    left (inr p) = omega arith

nil_of_length : (l : List ℕ) → length l ≡ 0 → l ≡ []
nil_of_length [] h = refl
nil_of_length (x ∷ l) h = absurd (omega arith)

rounds-pushed : (ks : List ℕ) → pushed (rounds ks) ≡ []
rounds-pushed [] = refl
rounds-pushed (k ∷ ks) = rounds-pushed ks

-- A loop that runs and is connected has put every pending byte on the wire, behind those that
-- were there, after as many rounds as there are bytes and packets, if the socket takes at least
-- a byte in each round.
pub run-rounds :
    (s : Sender) (ks : List ℕ)
    → s.running ≡ true
    → s.disconnected ≡ false
    → IsTidy s
    → AllPositive ks
    → work s ≤ length ks
    → (run s (rounds ks)).wire ≡ s.wire ++ pending s
run-rounds s ks on connected tidy h enough =
    sym (append-nil _)
    ∙ ap (◌++◌ (run s (rounds ks)).wire) (sym nothing)
    ∙ stream_from s (rounds ks) tidy
    ∙ ap (◌++◌ (s.wire ++ pending s)) (rounds-pushed ks)
    ∙ append-nil _
  where
    nothing : pending (run s (rounds ks)) ≡ []
    nothing = nil_of_length _ (
        omega (
          arith,
          work_done s ks (record { on = on; connected = connected }) tidy h enough,
          length-append (concat (run s (rounds ks)).bufs) (bytes_of (run s (rounds ks)).queue),
        ))
