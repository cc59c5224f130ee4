-- ===== src/Product/Transfer.antt =====
-- What the consumer reads of what the producer was given.
use linux_exercises.Base.{ℕ, ◌+◌, ◌≡◌, ◌<◌, refl, Option, some, [], ◌∷◌, ◌++◌, length, arith, ap}
use linux_exercises.Strings.{Text, c_string, NoNul, NoNewline, fgets-whole, cut_newline-line}
use linux_exercises.Product.Shared.{Product, Shown, name_size, produce, consume}

c_string-line : (t : Text) → NoNul t → c_string (t ++ 10 ∷ []) ≡ t ++ 10 ∷ []
c_string-line [] h = refl
c_string-line (c ∷ t) h = ground (arith, c_string-line t h.1, h.0)

module _ {P : Type 0} (scan_int : Text → Option ℕ × Text) (scan_price : Text → Option P × Text)
    (show_price : P → Text) where
  produce-made :
      (idstr name pricestr rest : Text) (id : ℕ) (price : P) (p : Product P)
      → scan_int (idstr ++ 10 ∷ (name ++ 10 ∷ pricestr)) ≡ (some id, 10 ∷ (name ++ 10 ∷ pricestr))
      → scan_price pricestr ≡ (some price, rest)
      → NoNul name
      → NoNewline name
      → length name + 1 < name_size
      → produce scan_int scan_price show_price (idstr ++ 10 ∷ (name ++ 10 ∷ pricestr)) p
        ≡ (record { name = name; id = id; price = price }, some (id, name, show_price price))
  unfolding produce
  produce-made idstr name pricestr rest id price p e f u v lt = rw (
    e,
    fgets-whole name_size name pricestr v lt,
    c_string-line name u,
    cut_newline-line name [] v,
    f,
  )

  -- For an input with a number that scanf reads as the id up to its newline, a name of at most 48
  -- bytes without a newline or a NUL, and a price that scanf reads, posix_shm_producer.c leaves
  -- just these in the shared memory, whatever was there; it prints the id, the name and the text
  -- that `%.2f` makes of the price, and posix_shm_consumer.c prints the same from it.
  pub produce-consume :
      (idstr name pricestr rest : Text) (id : ℕ) (price : P) (p : Product P)
      → scan_int (idstr ++ 10 ∷ (name ++ 10 ∷ pricestr)) ≡ (some id, 10 ∷ (name ++ 10 ∷ pricestr))
      → scan_price pricestr ≡ (some price, rest)
      → NoNul name
      → NoNewline name
      → length name + 1 < name_size
      → (produce scan_int scan_price show_price (idstr ++ 10 ∷ (name ++ 10 ∷ pricestr)) p
          ≡ (record { name = name; id = id; price = price }, some (id, name, show_price price)))
        × (consume show_price
              (produce scan_int scan_price show_price (idstr ++ 10 ∷ (name ++ 10 ∷ pricestr)) p).0
            ≡ (id, name, show_price price))
  unfolding consume
  produce-consume idstr name pricestr rest id price p e f u v lt =
      let made = produce-made idstr name pricestr rest id price p e f u v lt in
      (made, ap (λ (r : Product P × Option Shown). consume show_price r.0) made)
