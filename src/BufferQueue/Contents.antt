-- ===== src/BufferQueue/Contents.antt =====
-- A valid buffer queue stands for the list of the packets in it, oldest first.
use native.Mathlib.Numerals.{add-one}
use ziggo_caa_s_switch.Prelude.{
  ℕ, zero, suc, ◌+◌, ◌-◌, ◌%◌, ◌≤◌, ◌<◌, ◌≡◌, ◌≢◌, refl, ap, ap₂, ◌∙◌, List, [], ◌∷◌, ◌++◌, ◌⊎◌,
  inl, inr, Bool-cases, leb, ltb, none, some, arith, ℕ_discrete, length, get_or, set, take, drop,
  replicate, length-set, length-append, take-append_self, length-take_le, length-drop,
  get_or-set_self, get_or-set_ne,
}
use ziggo_caa_s_switch.BufferQueue.{
  BufferQueue, fifo_size, max_pkt_len, memcpy, init_queue, push_queue, pop_queue,
}

abbrev pub packet : List (List ℕ) → List ℕ → ℕ → List ℕ
packet bufs lens i = take (get_or lens i 0) (get_or bufs i [])

-- The `n` packets from slot `i` on, going round at the end of the arrays.
abbrev pub window : List (List ℕ) → List ℕ → ℕ → ℕ → List (List ℕ)
window bufs lens i zero = []
window bufs lens i (suc n) = packet bufs lens i ∷ window bufs lens ((i + 1) % fifo_size) n

abbrev pub contents : BufferQueue → List (List ℕ)
contents q = window q.buf_array q.len_array q.front q.size

-- Every slot below 64 holds a whole buffer of 1601 bytes and a length that fits it.
pub record IsValid (q : BufferQueue) : Type 0 where
  pub front_lt : q.front < fifo_size
  pub size_le : q.size ≤ fifo_size
  pub rear_eq : q.rear ≡ (q.front + q.size) % fifo_size
  pub bufs : length q.buf_array ≡ fifo_size
  pub lens : length q.len_array ≡ fifo_size
  pub room : (i : ℕ) → i < fifo_size → length (get_or q.buf_array i []) ≡ suc max_pkt_len
  pub fits : (i : ℕ) → i < fifo_size → get_or q.len_array i 0 ≤ max_pkt_len

length-memcpy :
    (dst src : List ℕ) (n : ℕ)
    → n ≤ length src
    → n ≤ length dst
    → length (memcpy dst src n) ≡ length dst
length-memcpy dst src n h k =
    omega
      (arith, length-append (take n src) (drop n dst), length-take_le n src h, length-drop n dst)

-- Fewer than 64 steps round the ring do not come back to the start.
step-ne : (h k : ℕ) → h < fifo_size → suc k < fifo_size → (h + suc k) % fifo_size ≢ h
step-ne h k hh hk = omega arith

-- Writing the slot just past a window extends the window by that packet.
window-set :
    (bufs : List (List ℕ)) (lens : List ℕ) (buf : List ℕ) (len n h i : ℕ)
    → length bufs ≡ fifo_size
    → length lens ≡ fifo_size
    → h < fifo_size
    → n < fifo_size
    → i ≡ (h + n) % fifo_size
    → window (set bufs i buf) (set lens i len) h (suc n)
      ≡ window bufs lens h n ++ (take len buf ∷ [])
window-set bufs lens buf len zero h i eb el hh hn e =
    let i-h : i ≡ h = omega arith in
    rw
      (i-h, get_or-set_self bufs h buf [] (omega arith), get_or-set_self lens h len 0 (omega arith))
window-set bufs lens buf len (suc n) h i eb el hh hn e =
    let i-ne : i ≢ h = omega arith in
    ap₂ ◌∷◌ (rw (get_or-set_ne bufs i h buf [] i-ne, get_or-set_ne lens i h len 0 i-ne)) (
      window-set bufs lens buf len n ((h + 1) % fifo_size) i eb el (omega arith) (omega arith)
        (omega arith))

window_step :
    (bufs : List (List ℕ)) (lens : List ℕ) (h n : ℕ)
    → n ≢ 0
    → window bufs lens h n ≡ packet bufs lens h ∷ window bufs lens ((h + 1) % fifo_size) (n - 1)
window_step bufs lens h zero p = absurd (p refl)
window_step bufs lens h (suc n) p = ap (λ k. window bufs lens h (suc k)) (omega arith)

get_or-set {ℓ} :
    {A : Type ℓ} (xs : List A) (i j : ℕ) (v d : A)
    → i < length xs
    → (get_or (set xs i v) j d ≡ v) ⊎ (get_or (set xs i v) j d ≡ get_or xs j d)
get_or-set xs i j v d h = elim (ℕ_discrete i j) [
  | yes e ↦ inl (rw (← e) (get_or-set_self xs i v d h))
  | no ne ↦ inr (get_or-set_ne xs i j v d ne)
]

get_or-replicate : (n i : ℕ) → get_or {A = ℕ} (replicate n 0) i 0 ≡ 0
get_or-replicate zero i = refl
get_or-replicate (suc n) zero = refl
get_or-replicate (suc n) (suc i) = get_or-replicate n i

-- `init_queue` makes a valid queue that is empty, from 64 buffers of 1601 bytes.
pub init_queue-IsValid :
    (buffers : List (List ℕ))
    → length buffers ≡ fifo_size
    → ((i : ℕ) → i < fifo_size → length (get_or buffers i []) ≡ suc max_pkt_len)
    → IsValid (init_queue buffers)
unfolding init_queue
init_queue-IsValid buffers e room = record {
  front_lt = omega arith;
  size_le = omega arith;
  rear_eq = refl;
  bufs = e;
  lens = refl;
  room = room;
  fits = λ i h. omega (arith, get_or-replicate 64 i);
}

-- What an accepted push leaves.
abbrev pushed : BufferQueue → List ℕ → ℕ → BufferQueue
pushed q buf len = record q {
  buf_array = set q.buf_array q.rear (memcpy (get_or q.buf_array q.rear []) buf len);
  len_array = set q.len_array q.rear len;
  rear = (q.rear + 1) % fifo_size;
  size = q.size + 1;
}

module _ (q : BufferQueue) (buf : List ℕ) (len : ℕ) (v : IsValid q) (room : q.size < fifo_size)
    (short : len ≤ max_pkt_len) (given : len ≤ length buf) where
  whole : length (memcpy (get_or q.buf_array q.rear []) buf len) ≡ suc max_pkt_len
  whole =
      let r = v.room q.rear (omega (arith, v.rear_eq)) in
      omega (arith, r, length-memcpy (get_or q.buf_array q.rear []) buf len)

  pushed-contents : contents (pushed q buf len) ≡ contents q ++ (take len buf ∷ [])
  pushed-contents =
      let slot = memcpy (get_or q.buf_array q.rear []) buf len in
      let grown =
        window-set q.buf_array q.len_array slot len q.size q.front q.rear v.bufs v.lens v.front_lt
          room v.rear_eq in
      rw add-one (
        grown
        ∙ ap (λ p. contents q ++ (p ∷ []))
            (take-append_self len buf (drop len (get_or q.buf_array q.rear [])) given))

  pushed-IsValid : IsValid (pushed q buf len)
  pushed-IsValid = record {
    front_lt = v.front_lt;
    size_le = omega arith;
    rear_eq = omega (arith, v.rear_eq);
    bufs = length-set q.buf_array q.rear _ ∙ v.bufs;
    lens = length-set q.len_array q.rear _ ∙ v.lens;
    room = λ i h. ground (
      arith,
      whole,
      v.room i h,
      get_or-set q.buf_array q.rear i (memcpy (get_or q.buf_array q.rear []) buf len) [],
      v.bufs,
      v.rear_eq,
    );
    fits =
        λ i h. ground (arith, v.fits i h, get_or-set q.len_array q.rear i len 0, v.lens, v.rear_eq);
  }

-- `push_queue` fails exactly when the queue is full or the packet is longer than 1600 bytes.
-- Otherwise the packet goes behind those in the queue, and the queue stays valid.
pub push_queue_lem :
    (q : BufferQueue) (buf : List ℕ) (len : ℕ)
    → IsValid q
    → len ≤ length buf
    → (((fifo_size ≤ q.size) ⊎ (max_pkt_len < len)) × (push_queue q buf len ≡ none))
      ⊎ ((q' : BufferQueue) × (q.size < fifo_size)
          × (len ≤ max_pkt_len)
          × (push_queue q buf len ≡ some q')
          × (contents q' ≡ contents q ++ (take len buf ∷ []))
          × IsValid q')
unfolding push_queue
push_queue_lem q buf len v h = elim (Bool-cases (leb fifo_size q.size)) [
  | inl full ↦ inl (ground arith, rw full)
  | inr space ↦ elim (Bool-cases (ltb max_pkt_len len)) [
    | inl long ↦ inl (ground arith, rw (space, long))
    | inr short ↦ inr (
      pushed q buf len,
      ground arith,
      ground arith,
      rw (space, short),
      pushed-contents q buf len v (ground arith) (ground arith) h,
      pushed-IsValid q buf len v (ground arith) (ground arith) h,
    )
  ]
]

popped : BufferQueue → BufferQueue
popped q = record q { front = (q.front + 1) % fifo_size; size = q.size - 1 }

-- `pop_queue` fails exactly on the empty queue. Otherwise it takes the oldest packet out of a
-- queue that stays valid.
pub pop_queue_lem :
    (q : BufferQueue)
    → IsValid q
    → ((contents q ≡ []) × (pop_queue q ≡ none))
      ⊎ ((q' : BufferQueue) × (bytes : List ℕ) × (len : ℕ) × (pop_queue q ≡ some (q', bytes, len))
          × (contents q ≡ bytes ∷ contents q')
          × IsValid q')
unfolding pop_queue popped
pop_queue_lem q v = elim (ℕ_discrete q.size 0) [
  | yes e ↦ inl (rw e, ground arith)
  | no ne ↦ inr (
    popped q,
    packet q.buf_array q.len_array q.front,
    get_or q.len_array ((q.front + 1) % fifo_size) 0,
    ground arith,
    window_step q.buf_array q.len_array q.front q.size ne,
    record {
      front_lt = omega arith;
      size_le = omega (arith, v.size_le);
      rear_eq = omega (arith, v.rear_eq);
      bufs = v.bufs;
      lens = v.lens;
      room = v.room;
      fits = v.fits;
    },
  )
]

length-packet :
    (q : BufferQueue) (i : ℕ)
    → IsValid q
    → i < fifo_size
    → length (packet q.buf_array q.len_array i) ≡ get_or q.len_array i 0
length-packet q i v h =
    length-take_le (get_or q.len_array i 0) (get_or q.buf_array i [])
      (omega (arith, v.fits i h, v.room i h))

window_two :
    (bufs : List (List ℕ)) (lens : List ℕ) (h n : ℕ) (a b : List ℕ) (rest : List (List ℕ))
    → window bufs lens h n ≡ a ∷ b ∷ rest
    → (n ≢ 0) × (packet bufs lens h ≡ a) × (packet bufs lens ((h + 1) % fifo_size) ≡ b)
window_two bufs lens h zero a b rest e = cc
window_two bufs lens h (suc zero) a b rest e = cc
window_two bufs lens h (suc (suc n)) a b rest e = (omega arith, cc, cc)

-- With a second packet in the queue, the length that `pop_queue` reports is that of the second
-- packet and not of the one that it copies out.
pub pop_queue-len :
    (q : BufferQueue) (a b : List ℕ) (rest : List (List ℕ))
    → IsValid q
    → contents q ≡ a ∷ b ∷ rest
    → (q' : BufferQueue) × (pop_queue q ≡ some (q', a, length b))
unfolding pop_queue popped
pop_queue-len q a b rest v e =
    let two = window_two q.buf_array q.len_array q.front q.size a b rest e in
    (
      popped q,
      ground (
        arith,
        two,
        length-packet q ((q.front + 1) % fifo_size) v (omega arith),
        ap length two.2,
      ),
    )
