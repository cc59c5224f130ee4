-- ===== src/Product/Shared.antt =====
-- posix_shm_producer.c and posix_shm_consumer.c, with shm_open, ftruncate and mmap by their success.
use linux_exercises.Base.{ℕ, Option, none, some, [], ◌∷◌}
use linux_exercises.Strings.{Text, c_string, cut_newline, fgets}

-- `product_t`; a price is what `scanf` with `%f` stores.
pub record Product (P : Type 0) : Type 0 where
  pub name : Text
  pub id : ℕ
  pub price : P

-- What is printed of a product; `show_price` is `printf` with `%.2f`.
abbrev pub Shown : Type 0
Shown = ℕ × Text × Text

abbrev pub show_product : {P : Type 0} → (show_price : P → Text) → Product P → Shown
show_product show_price p = (p.id, p.name, show_price p.price)

-- `sizeof(p->name)`
abbrev pub name_size : ℕ
name_size = 50

abbrev pub or_old : {A : Type 0} → A → Option A → A
or_old old none = old
or_old old (some new) = new

-- `getchar`
abbrev pub skip_char : Text → Text
skip_char [] = []
skip_char (c ∷ cs) = cs

-- `scanf` with `%d` and with `%f`: the value, if one is there, and the rest of the input.
module _ {P : Type 0} (scan_int : Text → Option ℕ × Text) (scan_price : Text → Option P × Text)
    (show_price : P → Text) where
  abbrev pub with_price : Product P → Text → Product P × Option Shown
  with_price p input =
      let q = record p { price = or_old p.price (scan_price input).0 } in
      (q, some (show_product show_price q))

  -- From `fgets` on; it has stored the name, or the program ends.
  abbrev pub with_name : Product P → Option (Text × Text) → Product P × Option Shown
  with_name p none = (p, none)
  with_name p (some (line, input)) =
      with_price (record p { name = cut_newline (c_string line) }) input

  -- `main` of the producer: the memory that it leaves, and what it prints.
  unfoldable pub produce : (input : Text) → Product P → Product P × Option Shown
  produce input p =
      let r = scan_int input in
      with_name (record p { id = or_old p.id r.0 }) (fgets name_size (skip_char r.1))

-- `main` of the consumer.
unfoldable pub consume : {P : Type 0} → (show_price : P → Text) → Product P → Shown
consume show_price p = show_product show_price p
