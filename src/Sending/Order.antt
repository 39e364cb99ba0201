-- ===== src/Sending/Order.antt =====
-- The loop of `Connection::Send` in Base/Connection.cpp sends what was pushed, in order.
use bugat.Common.{
  ℕ, ◌≡◌, refl, sym, ap, ◌∙◌, List, [], ◌∷◌, ◌++◌, true, false, arith, if_cases, concat,
  append_assoc, append-nil, take-append-drop, map, take,
}
use bugat.Sending.Helper.{helper_update-drop}
use bugat.Sending.{
  Sender, Packet, Io, failed, moved, Happening, push, close, round, helper_update, helper_init,
  pop_packet, next_packet, attempt, after_send, turn, happen, run, new_sender,
}

-- The bytes of packets, one behind the other.
abbrev pub bytes_of : List Packet → List ℕ
bytes_of packets = concat (map concat packets)

-- What the packets still queued or being sent amount to.
abbrev pub pending : Sender → List ℕ
pending s = concat s.bufs ++ bytes_of s.queue

abbrev pub pushed : List Happening → List ℕ
pushed [] = []
pushed (push packet ∷ hs) = concat packet ++ pushed hs
pushed (close ∷ hs) = pushed hs
pushed (round io ∷ hs) = pushed hs

-- The helper is empty while no packet is being sent.
abbrev pub IsTidy : Sender → Type 0
IsTidy s = s.sending ≡ false → s.bufs ≡ []

pub concat-append : (xs ys : List (List ℕ)) → concat (xs ++ ys) ≡ concat xs ++ concat ys
concat-append [] ys = refl
concat-append (x ∷ xs) ys =
    ap (◌++◌ x) (concat-append xs ys) ∙ sym (append_assoc x (concat xs) (concat ys))

pub bytes_of-append : (xs ys : List Packet) → bytes_of (xs ++ ys) ≡ bytes_of xs ++ bytes_of ys
bytes_of-append [] ys = refl
bytes_of-append (x ∷ xs) ys =
    ap (◌++◌ (concat x)) (bytes_of-append xs ys)
    ∙ sym (append_assoc (concat x) (bytes_of xs) (bytes_of ys))

pub record Kept (s s' : Sender) : Type 0 where
  pub stream : s'.wire ++ pending s' ≡ s.wire ++ pending s
  pub tidy : IsTidy s'

pop_packet-Kept :
    (s : Sender) (queue : List Packet)
    → s.queue ≡ queue
    → s.sending ≡ false
    → IsTidy s
    → Kept s (pop_packet s)
unfolding pop_packet helper_init
pop_packet-Kept s [] e idle tidy = record { stream = ground arith; tidy = ground arith }
pop_packet-Kept s (packet ∷ packets) e idle tidy = record {
  stream = ground (
    arith,
    concat-append s.bufs packet,
    append_assoc (concat s.bufs) (concat packet) (bytes_of packets),
  );
  tidy = ground arith;
}

-- Bytes move from what is pending to the wire.
move_bytes :
    (wire gone kept all more : List ℕ)
    → gone ++ kept ≡ all
    → (wire ++ gone) ++ (kept ++ more) ≡ wire ++ (all ++ more)
move_bytes wire gone kept all more e =
    append_assoc wire gone (kept ++ more)
    ∙ ap (◌++◌ wire) (sym (append_assoc gone kept more) ∙ ap (λ l. l ++ more) e)

moved_bytes :
    (s : Sender) (k : ℕ) (bufs : List (List ℕ))
    → helper_update k s.bufs ≡ bufs
    → (s.wire ++ take k (concat s.bufs)) ++ (concat bufs ++ bytes_of s.queue) ≡ s.wire ++ pending s
moved_bytes s k bufs e =
    move_bytes s.wire (take k (concat s.bufs)) (concat bufs) (concat s.bufs) (bytes_of s.queue) (
      ap (◌++◌ (take k (concat s.bufs))) (ap concat (sym e) ∙ helper_update-drop k s.bufs)
      ∙ take-append-drop k (concat s.bufs))

moved-Kept :
    (s : Sender) (k : ℕ) (bufs : List (List ℕ))
    → helper_update k s.bufs ≡ bufs
    → s.sending ≡ true
    → Kept s (after_send s (moved k))
unfolding after_send
moved-Kept s k [] e busy = record {
  stream = ground (arith, moved_bytes s k [] e);
  tidy = ground arith;
}
moved-Kept s k (buf ∷ bufs) e busy = record {
  stream = ground (arith, moved_bytes s k (buf ∷ bufs) e);
  tidy = ground arith;
}

after_send-Kept : (s : Sender) (io : Io) → s.sending ≡ true → Kept s (after_send s io)
unfolding after_send
after_send-Kept s failed busy = record { stream = refl; tidy = ground arith }
after_send-Kept s (moved k) busy = moved-Kept s k (helper_update k s.bufs) refl busy

Kept-trans : {s t u : Sender} → Kept s t → Kept t u → Kept s u
Kept-trans p q = record { stream = q.stream ∙ p.stream; tidy = q.tidy }

pub next_packet-Kept : (s : Sender) → IsTidy s → Kept s (next_packet s)
unfolding next_packet
next_packet-Kept s tidy =
    if_cases (Kept s) s.sending s (pop_packet s) (λ _. record { stream = refl; tidy = tidy })
      λ idle. pop_packet-Kept s s.queue refl idle tidy

attempt-Kept : (s : Sender) (io : Io) → IsTidy s → Kept s (attempt s io)
unfolding attempt
attempt-Kept s io tidy =
    if_cases (Kept s) s.sending (after_send s io) s (after_send-Kept s io)
      λ _. record { stream = refl; tidy = tidy }

pub turn-Kept : (s : Sender) (io : Io) → IsTidy s → Kept s (turn s io)
unfolding turn
turn-Kept s io tidy =
    if_cases (Kept s) s.disconnected (record s { running = false }) (attempt (next_packet s) io)
      (λ _. record { stream = refl; tidy = tidy })
      λ _.
        Kept-trans (next_packet-Kept s tidy)
          (attempt-Kept (next_packet s) io (next_packet-Kept s tidy).tidy)

pub happen-round-Kept : (s : Sender) (io : Io) → IsTidy s → Kept s (happen s (round io))
unfolding happen
happen-round-Kept s io tidy =
    if_cases (Kept s) s.running (turn s io) s (λ _. turn-Kept s io tidy)
      λ _. record { stream = refl; tidy = tidy }

pub stream_from :
    (s : Sender) (hs : List Happening)
    → IsTidy s
    → (run s hs).wire ++ pending (run s hs) ≡ (s.wire ++ pending s) ++ pushed hs
unfolding run happen
stream_from s [] tidy = sym (append-nil _)
stream_from s (push packet ∷ hs) tidy =
    stream_from (happen s (push packet)) hs tidy
    ∙ ap (λ l. l ++ pushed hs)
        (ap (λ b. s.wire ++ (concat s.bufs ++ b)) (bytes_of-append s.queue (packet ∷ [])))
    ∙ simp (append_assoc, append-nil)
stream_from s (close ∷ hs) tidy = stream_from (happen s close) hs tidy
stream_from s (round io ∷ hs) tidy =
    let k = happen-round-Kept s io tidy in
    stream_from (happen s (round io)) hs k.tidy ∙ ap (λ l. l ++ pushed hs) k.stream

-- However rounds, pushes from other threads and a close follow one another, the bytes on the
-- wire and the pending ones are always the bytes pushed so far, in order: nothing is lost, sent
-- twice or reordered.
pub run-stream :
    (hs : List Happening) → (run new_sender hs).wire ++ pending (run new_sender hs) ≡ pushed hs
unfolding new_sender
run-stream hs = stream_from new_sender hs (λ e. refl)
