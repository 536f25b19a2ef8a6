-- ===== src/Keypad/Queue/Refine.antt =====
-- EFI_KEY_QUEUE (HtcLeoPkg/Drivers/KeypadDxe/KeypadTextIn.c) and the bounded list of Queue/Fifo.
use lgoptimus_l3pkg.Common.{
  ℕ, zero, suc, ◌+◌, ◌-◌, ◌%◌, ◌<◌, ◌≡◌, ◌≢◌, refl, sym, ap, ap₂, ◌∙◌, inl, inr, false, Option,
  none, some, List, [], ◌∷◌, ◌++◌, arith, ◌==◌, if◌then◌else◌, Bool-cases, length, get_or, set,
  length-set, get_or-set_self, get_or-set_ne,
}
use lgoptimus_l3pkg.Keypad.Key.{KeyData, zero_key}
use lgoptimus_l3pkg.Keypad.Queue.{
  KeyQueue, pop_efikey_buf_head, push_efikey_buf_tail, make_room, append_key,
}
use lgoptimus_l3pkg.Keypad.Queue.Fifo
use lgoptimus_l3pkg.Keypad.Queue.Fifo.{Op, put, take}

pub record IsValid (q : KeyQueue) : Type 0 where
  pub storage : length q.buffer ≡ 256
  pub head_in : q.head < 256
  pub tail_in : q.tail < 256

-- The `n` keys from index `i` on, modulo the size of the buffer.
abbrev pub keys_from : List KeyData → ℕ → ℕ → List KeyData
keys_from b i zero = []
keys_from b i (suc n) = get_or b (i % 256) zero_key ∷ keys_from b (suc i) n

abbrev pub count : KeyQueue → ℕ
count q = (q.tail + 256 - q.head) % 256

abbrev pub contents : KeyQueue → List KeyData
contents q = keys_from q.buffer q.head (count q)

length-keys_from : (b : List KeyData) (i n : ℕ) → length (keys_from b i n) ≡ n
length-keys_from b i zero = refl
length-keys_from b i (suc n) = ap suc (length-keys_from b (suc i) n)

keys_from-mod :
    (b : List KeyData) (i j n : ℕ) → i % 256 ≡ j % 256 → keys_from b i n ≡ keys_from b j n
keys_from-mod b i j zero h = refl
keys_from-mod b i j (suc n) h =
    ap₂ ◌∷◌ (ap (λ k. get_or b k zero_key) h) (keys_from-mod b (suc i) (suc j) n (omega arith))

-- Writing just past the keys appends the new one.
keys_from-set :
    (b : List KeyData) (i n t : ℕ) (k : KeyData)
    → length b ≡ 256
    → n < 256
    → t ≡ (i + n) % 256
    → keys_from (set b t k) i (suc n) ≡ keys_from b i n ++ (k ∷ [])
keys_from-set b i zero t k s h e =
    let same : i % 256 ≡ t = omega arith in
    rw same (ap (λ x. x ∷ []) (get_or-set_self b t k zero_key (omega arith)))
keys_from-set b i (suc n) t k s h e =
    ap₂ ◌∷◌ (get_or-set_ne b t (i % 256) k zero_key (omega arith))
      (keys_from-set b (suc i) n t k s (omega arith) (omega arith))

pub contents-pop :
    (q : KeyQueue)
    → IsValid q
    → q.head ≢ q.tail
    → contents q
      ≡ get_or q.buffer q.head zero_key ∷ contents (record q { head = (q.head + 1) % 256 })
contents-pop q v ne =
    let fewer : count q ≡ suc (count (record q { head = (q.head + 1) % 256 })) = omega arith in
    rw fewer (
      ap₂ ◌∷◌ (ap (λ k. get_or q.buffer k zero_key) (omega arith))
        (keys_from-mod q.buffer (suc q.head) ((q.head + 1) % 256) _ (omega arith)))

pub contents-empty : (q : KeyQueue) → IsValid q → q.head ≡ q.tail → contents q ≡ []
contents-empty q v e =
    let none_left : count q ≡ 0 = omega arith in ap (keys_from q.buffer q.head) none_left

contents-append_key :
    (q : KeyQueue) (k : KeyData)
    → IsValid q
    → count q < 255
    → contents (append_key q k) ≡ contents q ++ (k ∷ [])
contents-append_key q k v room =
    let more : count (append_key q k) ≡ suc (count q) = omega arith in
    rw more (keys_from-set q.buffer q.head (count q) q.tail k v.storage (omega arith) (omega arith))

-- `PopEfikeyBufHead` returns EFI_NOT_READY exactly when the list of the queue's keys is empty,
-- otherwise the oldest key, and leaves a valid queue of the others.
pub pop_refines :
    (q : KeyQueue)
    → IsValid q
    → let (k, q') = pop_efikey_buf_head q in ((k, contents q') ≡ Fifo.pop (contents q)) × IsValid q'
unfolding pop_efikey_buf_head Fifo.pop
pop_refines q v = elim (Bool-cases (q.head == q.tail)) [
  | inl e ↦ let e' : q.head ≡ q.tail = ground arith in rw e (rw (contents-empty q v e') refl, v)
  | inr n ↦
      let n' : q.head ≢ q.tail = ground arith in rw n (rw (contents-pop q v n') refl, omega arith)
]

-- What making room does to the keys, as `Fifo.push` does it.
make_room_lem :
    (q : KeyQueue)
    → IsValid q
    → (contents (make_room q)
        ≡ (if length (contents q) == 255 then Fifo.drop_first (contents q) else contents q))
      × IsValid (make_room q)
      × (count (make_room q) < 255)
unfolding pop_efikey_buf_head
make_room_lem q v = elim (Bool-cases ((q.tail + 1) % 256 == q.head)) [
  | inl e ↦
      let full : count q ≡ 255 = ground arith in
      let n' : q.head ≢ q.tail = ground arith in
      let n : (q.head == q.tail) ≡ false = ground arith in
      rw (e, n, length-keys_from, full)
        (
          sym (
              ap Fifo.drop_first (sym (ap (keys_from q.buffer q.head) full) ∙ contents-pop q v n')),
          omega arith,
          omega arith,
        )
  | inr n ↦
      let room : (count q == 255) ≡ false = ground arith in
      rw (n, length-keys_from, room) (refl, v, ground arith)
]

-- `PushEfikeyBufTail` appends the key, drops the oldest key when 255 keys are held, and leaves a
-- valid queue.
pub push_refines :
    (q : KeyQueue) (k : KeyData)
    → IsValid q
    → (contents (push_efikey_buf_tail q k) ≡ Fifo.push (contents q) k)
      × IsValid (push_efikey_buf_tail q k)
unfolding push_efikey_buf_tail Fifo.push
push_refines q k v =
    let r = make_room_lem q v in
    let q' = make_room q in
    (
      contents-append_key q' k r.1 r.2 ∙ ap (λ ks. ks ++ (k ∷ [])) r.0,
      record {
        storage = length-set q'.buffer q'.tail k ∙ r.1.storage;
        head_in = r.1.head_in;
        tail_in = omega arith;
      },
    )

-- The queue's own run of a client's calls.
pub run : KeyQueue → List Op → List (Option KeyData)
run q [] = []
run q (put k ∷ ops) = run (push_efikey_buf_tail q k) ops
run q (take ∷ ops) = (pop_efikey_buf_head q).0 ∷ run (pop_efikey_buf_head q).1 ops

-- From a valid queue, every sequence of pushes and pops returns what the list of at most 255 keys
-- returns that starts with the queue's keys.
pub run_refines : (q : KeyQueue) (ops : List Op) → IsValid q → run q ops ≡ Fifo.run (contents q) ops
unfolding run Fifo.run
run_refines q [] v = refl
run_refines q (put k ∷ ops) v =
    let (same, v') = push_refines q k v in
    run_refines (push_efikey_buf_tail q k) ops v' ∙ ap (λ ks. Fifo.run ks ops) same
run_refines q (take ∷ ops) v =
    let (same, v') = pop_refines q v in
    ap₂ ◌∷◌ (ap (λ p. p.0) same)
      (run_refines (pop_efikey_buf_head q).1 ops v' ∙ ap (λ p. Fifo.run p.1 ops) same)

pub pop_nil :
    (q : KeyQueue)
    → IsValid q
    → contents q ≡ []
    → let (k, q') = pop_efikey_buf_head q in (k ≡ none) × (contents q' ≡ []) × IsValid q'
unfolding Fifo.pop
pop_nil q v e =
    let (same, v') = pop_refines q v in
    let popped = same ∙ ap Fifo.pop e in (ap (λ r. r.0) popped, ap (λ r. r.1) popped, v')

pub pop_cons :
    (q : KeyQueue) (k : KeyData) (ks : List KeyData)
    → IsValid q
    → contents q ≡ k ∷ ks
    → let (k', q') = pop_efikey_buf_head q in (k' ≡ some k) × (contents q' ≡ ks) × IsValid q'
unfolding Fifo.pop
pop_cons q k ks v e =
    let (same, v') = pop_refines q v in
    let popped = same ∙ ap Fifo.pop e in (ap (λ r. r.0) popped, ap (λ r. r.1) popped, v')
