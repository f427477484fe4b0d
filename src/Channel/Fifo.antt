-- ===== src/Channel/Fifo.antt =====
-- A channel hands on what is sent to it, in its order. Its ring is one that never grows, and the
-- lemmas on the deque's hold of it.
use ern_os.Base.{
  ℕ, ◌+◌, ◌%◌, ◌≤◌, ◌<◌, ◌≡◌, refl, sym, ap, subst, ◌∙◌, Bool, true, false, Option, none, some,
  List, [], ◌∷◌, ◌++◌, append-nil, append_assoc, arith, leb, leb→gt, leb→le, if◌then◌else◌, length,
  set, length-replicate,
}
use ern_os.Base.Int.{ℤ}
use ern_os.Deque.{EpDeque}
use ern_os.Deque.Refines.{Models, push_back-Models, pop_front-Models}
use ern_os.Channel.{
  EpChannel, create_channel, send_channel, take_value, receive_channel, channel_try_recv, Reached,
  opened, sent, received, tried,
}

abbrev ring : EpChannel → EpDeque
ring c = record {
  cells = c.cells;
  capacity = c.capacity;
  head = c.head;
  tail = c.tail;
  size = c.size;
}

-- A channel in order, what was sent to it and what was received: what is on the way, `queue`, is
-- what the ring holds.
record InOrder (c : EpChannel) (sends receipts : List ℤ) : Type 0 where
  queue : List ℤ
  order : sends ≡ receipts ++ queue
  whole : c.capacity ≡ 1024
  holds : Models (ring c) queue

opened-InOrder : (junk : ℤ) → InOrder (create_channel junk) [] []
unfolding create_channel
opened-InOrder junk = record {
  queue = [];
  order = refl;
  whole = refl;
  holds = record {
    allocated = length-replicate 1024 junk;
    inside = omega arith;
    fits = omega arith;
    ends = refl;
    counted = refl;
    reads = λ i l. absurd (omega arith);
  };
}

take_value-InOrder :
    (c : EpChannel) (sends receipts : List ℤ)
    → InOrder c sends receipts
    → 0 < c.size
    → InOrder (take_value c).1 sends (receipts ++ (take_value c).0 ∷ [])
unfolding take_value
take_value-InOrder c sends receipts h more = from h.queue h.order h.holds
  where
    from :
        (queue : List ℤ)
        → sends ≡ receipts ++ queue
        → Models (ring c) queue
        → InOrder (take_value c).1 sends (receipts ++ (take_value c).0 ∷ [])
    from [] order m = absurd (omega (arith, m.counted))
    from (v ∷ rest) order m =
        let (after, first) = pop_front-Models (ring c) v rest m in
        record {
          queue = rest;
          order =
              order
              ∙ sym (append_assoc receipts (v ∷ []) rest)
              ∙ ap (λ x. (receipts ++ x ∷ []) ++ rest) (sym first);
          whole = h.whole;
          holds = after;
        }

-- A property of what a step gives, where it is enabled.
abbrev All {ℓ} : {A : Type ℓ} → (A → Type 0) → Option A → Type 0
All P none = Unit
All P (some a) = P a

sent-InOrder :
    (c : EpChannel) (sends receipts : List ℤ) (value : ℤ)
    → InOrder c sends receipts
    → All (λ d. InOrder d (sends ++ value ∷ []) receipts) (send_channel c value)
unfolding send_channel
sent-InOrder c sends receipts value h = by_room (leb c.capacity c.size) refl
  where
    put : EpChannel
    put = record c {
      cells = set c.cells c.tail value;
      tail = (c.tail + 1) % c.capacity;
      size = c.size + 1;
    }

    by_room :
        (full : Bool)
        → leb c.capacity c.size ≡ full
        → All (λ d. InOrder d (sends ++ value ∷ []) receipts) (if full then none else some put)
    by_room true e = tt
    by_room false e = record {
      queue = h.queue ++ value ∷ [];
      order = ap (λ xs. xs ++ value ∷ []) h.order ∙ append_assoc receipts h.queue (value ∷ []);
      whole = h.whole;
      holds = push_back-Models (ring c) h.queue value h.holds (leb→gt c.capacity c.size e);
    }

received-InOrder :
    (c : EpChannel) (sends receipts : List ℤ)
    → InOrder c sends receipts
    → All (λ r. InOrder r.1 sends (receipts ++ r.0 ∷ [])) (receive_channel c)
unfolding receive_channel
received-InOrder c sends receipts h = by_size (leb c.size 0) refl
  where
    by_size :
        (empty : Bool)
        → leb c.size 0 ≡ empty
        → All
            (λ r. InOrder r.1 sends (receipts ++ r.0 ∷ []))
            (if empty then none else some (take_value c))
    by_size true e = tt
    by_size false e = take_value-InOrder c sends receipts h (leb→gt c.size 0 e)

tried-InOrder :
    (c : EpChannel) (sends receipts : List ℤ)
    → InOrder c sends receipts
    → All (λ v. InOrder (channel_try_recv c).2 sends (receipts ++ v ∷ [])) (channel_try_recv c).1
unfolding channel_try_recv
tried-InOrder c sends receipts h = by_size (leb c.size 0) refl
  where
    answer : Bool → ℕ × Option ℤ × EpChannel
    answer empty = if empty then (0, none, c) else (1, some (take_value c).0, (take_value c).1)

    by_size :
        (empty : Bool)
        → leb c.size 0 ≡ empty
        → All (λ v. InOrder (answer empty).2 sends (receipts ++ v ∷ [])) (answer empty).1
    by_size true e = tt
    by_size false e = take_value-InOrder c sends receipts h (leb→gt c.size 0 e)

Reached-InOrder :
    {junk : ℤ} {c : EpChannel} {sends receipts : List ℤ}
    → Reached junk c sends receipts
    → InOrder c sends receipts
Reached-InOrder {junk} opened = opened-InOrder junk
Reached-InOrder (sent value h e) = subst (All _) e (sent-InOrder _ _ _ value (Reached-InOrder h))
Reached-InOrder (received value h e) = subst (All _) e (received-InOrder _ _ _ (Reached-InOrder h))
Reached-InOrder (tried {sends = sends} {receipts = receipts} value h e) =
    subst (λ (r : ℕ × Option ℤ × EpChannel). All (λ v. InOrder r.2 sends (receipts ++ v ∷ [])) r.1)
      e (tried-InOrder _ _ _ (Reached-InOrder h))

-- A step that waits is one whose guard holds.
abbrev is_none {ℓ} : {A : Type ℓ} → Option A → Bool
is_none none = true
is_none (some a) = false

waits {ℓ} : {A : Type ℓ} (b : Bool) (a : A) → is_none (if b then none else some a) ≡ b
waits true a = refl
waits false a = refl

receive_waits : (c : EpChannel) → receive_channel c ≡ none → c.size ≤ 0
unfolding receive_channel
receive_waits c e = leb→le c.size 0 (sym (waits (leb c.size 0) (take_value c)) ∙ ap is_none e)

send_waits : (c : EpChannel) (value : ℤ) → send_channel c value ≡ none → c.capacity ≤ c.size
unfolding send_channel
send_waits c value e =
    leb→le c.capacity c.size (sym (waits (leb c.capacity c.size) _) ∙ ap is_none e)

nothing_left : {A : Type 0} (xs : List A) → length xs ≡ 0 → xs ≡ []
nothing_left [] h = refl
nothing_left (x ∷ xs) h = absurd (omega arith)

-- Of a channel that threads bring about, in whatever order their steps stand: what was sent to it
-- is what was received from it and then the at most 1024 values on the way, one for each that its
-- size counts; a receiver waits only where everything sent was received, and a sender only where
-- 1024 values are on the way.
pub Reached-Fifo :
    (junk : ℤ) (c : EpChannel) (sends receipts : List ℤ)
    → Reached junk c sends receipts
    → (queue : List ℤ) × (sends ≡ receipts ++ queue)
      × (c.size ≡ length queue)
      × (length queue ≤ 1024)
      × (receive_channel c ≡ none → sends ≡ receipts)
      × ((value : ℤ) → send_channel c value ≡ none → length queue ≡ 1024)
Reached-Fifo junk c sends receipts reached =
    let h = Reached-InOrder reached in
    let m = h.holds in
    let whole : c.capacity ≡ 1024 = h.whole in
    let counted : c.size ≡ length h.queue = m.counted in
    let fits : c.size ≤ c.capacity = m.fits in
    (
      h.queue,
      h.order,
      counted,
      omega arith,
      (λ e.
          h.order
          ∙ ap (λ xs. receipts ++ xs) (nothing_left h.queue (omega (arith, receive_waits c e)))
          ∙ append-nil receipts),
      λ value e. omega (arith, send_waits c value e),
    )
