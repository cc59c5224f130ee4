-- ===== src/Buffer/Ring.antt =====
-- The buffer of nConsumer.c with its indices, and the queue it stands for.
use linux_exercises.Base.{
  ℕ, zero, suc, ◌+◌, ◌-◌, ◌%◌, ◌<◌, ◌≤◌, ◌≡◌, ◌≢◌, refl, Option, none, some, List, [], ◌∷◌, ◌++◌,
  arith, length, get_elem?, set, replicate, length-set, get_elem?-set_self, get_elem?-set_ne,
  length-append, ◌∙◌, sym, ap, ◌⊎◌, inl, inr,
}

abbrev pub buffer_size : ℕ
buffer_size = 5

-- The globals; `in` is a word of the language.
pub record Ring : Type 0 where
  pub buffer : List ℕ
  pub count : ℕ
  pub in_ : ℕ
  pub out : ℕ

abbrev pub empty_ring : Ring
empty_ring = record { buffer = replicate buffer_size 0; count = 0; in_ = 0; out = 0 }

-- What `producer` does to the buffer once `count != BUFFER_SIZE`.
unfoldable pub insert : ℕ → Ring → Ring
insert item r = record r {
  buffer = set r.buffer r.in_ item;
  in_ = (r.in_ + 1) % buffer_size;
  count = r.count + 1;
}

abbrev get_or : Option ℕ → ℕ
get_or none = 0
get_or (some x) = x

-- What `consumer` does once `count != 0`: the item and the new buffer.
unfoldable pub take_out : Ring → ℕ × Ring
take_out r = (
  get_or (get_elem? r.buffer r.out),
  record r { out = (r.out + 1) % buffer_size; count = r.count - 1 },
)

-- The ring holds the items of a queue, oldest first, from `out` on.
pub record Shows (r : Ring) (q : List ℕ) : Type 0 where
  pub size : length r.buffer ≡ buffer_size
  pub fits : r.count ≤ buffer_size
  pub len : length q ≡ r.count
  pub start : r.out < buffer_size
  pub end : r.in_ ≡ (r.out + r.count) % buffer_size
  pub items : (i : ℕ) → i < r.count → get_elem? r.buffer ((r.out + i) % buffer_size) ≡ get_elem? q i

get_elem?-append_left :
    (xs ys : List ℕ) (i : ℕ) → i < length xs → get_elem? (xs ++ ys) i ≡ get_elem? xs i
get_elem?-append_left [] ys i h = absurd (omega (arith, h))
get_elem?-append_left (x ∷ xs) ys zero h = refl
get_elem?-append_left (x ∷ xs) ys (suc i) h = get_elem?-append_left xs ys i (omega (arith, h))

get_elem?-append_here : (xs : List ℕ) (y : ℕ) → get_elem? (xs ++ (y ∷ [])) (length xs) ≡ some y
get_elem?-append_here [] y = refl
get_elem?-append_here (x ∷ xs) y = get_elem?-append_here xs y

pub empty_ring-Shows : Shows empty_ring []
empty_ring-Shows = record {
  size = refl;
  fits = omega arith;
  len = refl;
  start = omega arith;
  end = refl;
  items = λ i h. absurd (omega (arith, h));
}

abbrev pub slot : Ring → ℕ → ℕ
slot r i = (r.out + i) % buffer_size

-- Different items lie in different slots.
slot-ne : (o n i : ℕ) → i < n → n < 5 → ((o + n) % 5) ≢ ((o + i) % 5)
slot-ne o n i h l e = omega arith

le-cases : (i n : ℕ) → i ≤ n → (i < n) ⊎ (i ≡ n)
le-cases i n h = ground arith

insert-items :
    (r : Ring) (q : List ℕ) (x i : ℕ)
    → Shows r q
    → r.count < buffer_size
    → i < suc r.count
    → get_elem? (set r.buffer r.in_ x) (slot r i) ≡ get_elem? (q ++ (x ∷ [])) i
insert-items r q x i s h l = elim (le-cases i r.count (omega (arith, l))) [
  | inl e ↦
      get_elem?-set_ne r.buffer x (λ p. slot-ne r.out r.count i e h (sym s.end ∙ p))
      ∙ s.items i e
      ∙ sym (get_elem?-append_left q (x ∷ []) i (omega (arith, s.len)))
  | inr e ↦
      ap (get_elem? (set r.buffer r.in_ x)) (ap (slot r) e ∙ sym s.end)
      ∙ get_elem?-set_self r.buffer r.in_ x (omega (arith, s.end, s.size))
      ∙ sym (get_elem?-append_here q x)
      ∙ ap (get_elem? (q ++ (x ∷ []))) (s.len ∙ sym e)
]

-- While the ring is not full, the body of producer appends the item to the queue that the ring
-- stands for.
pub insert-Shows :
    (r : Ring) (q : List ℕ) (x : ℕ)
    → Shows r q
    → r.count < buffer_size
    → Shows (insert x r) (q ++ (x ∷ []))
unfolding insert
insert-Shows r q x s h = record {
  size = length-set r.buffer r.in_ x ∙ s.size;
  fits = omega arith;
  len = omega (arith, length-append q (x ∷ []), s.len);
  start = s.start;
  end = omega (arith, s.end);
  items = λ i l. insert-items r q x i s h (omega (arith, l));
}

-- The body of consumer returns the oldest item of the queue that the ring stands for and drops
-- it.
pub take_out-Shows :
    (r : Ring) (x : ℕ) (q : List ℕ)
    → Shows r (x ∷ q)
    → ((take_out r).0 ≡ x) × Shows (take_out r).1 q
unfolding take_out
take_out-Shows r x q s = (
  ap get_or (ap (get_elem? r.buffer) (omega (arith, s.start)) ∙ s.items 0 (omega (arith, s.len))),
  record {
    size = s.size;
    fits = omega (arith, s.fits);
    len = omega (arith, s.len);
    start = omega arith;
    end = omega (arith, s.end, s.len, s.start, s.fits);
    items = λ i l. ap (get_elem? r.buffer) (omega arith) ∙ s.items (suc i) (omega (arith, l));
  },
)
