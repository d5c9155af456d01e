-- ===== src/DataScraper/Items.antt =====
-- Reading one item of a line.
use tcpclient_server.Prelude.{
  ℕ, ◌≡◌, refl, ◌⊎◌, inl, inr, arith, true, false, Bytes, ◌==◌, Bool-cases,
}
use tcpclient_server.Errors.{Outcome, returns, throws, ◌>>=◌, bad_data_error}
use tcpclient_server.Calculator.{Operation, add, subtract, multiply, divide, ClientData}
use tcpclient_server.DataScraper.{
  Stream, good, fails, stream_on, Extract, get_item, check_item, extract_char, operation_of,
  parse_datum,
}

check_item-cases :
    {A : Type 0} (item : A) (is : Stream)
    → ((r : A × Stream) × (check_item item is ≡ returns r) × (fails r.1 ≡ false))
      ⊎ (check_item item is ≡ throws bad_data_error)
unfolding check_item
check_item-cases item is = elim (Bool-cases (fails is)) [
  | inl e ↦ inr (rw e)
  | inr e ↦ inl ((item, is), ground arith, e)
]

-- `get_item` fails in one way only, by `bad_data_error`: its second test, for an I/O error, is
-- never reached with success, since `fail()` holds wherever `bad()` does.
pub get_item_throws :
    {A : Type 0} (extract : Extract A) (is : Stream) (item : A)
    → ((r : A × Stream) × (get_item extract is item ≡ returns r) × (fails r.1 ≡ false))
      ⊎ (get_item extract is item ≡ throws bad_data_error)
unfolding get_item
get_item_throws extract is item = elim (Bool-cases (good is)) [
  | inl e ↦ rw (e, get_item) (check_item-cases (extract is item).0 (extract is item).1)
  | inr e ↦ rw (e, get_item) (check_item-cases item is)
]

-- At the end of the line `get_item` reports nothing and leaves its variable as it was.
pub get_item_at_end :
    {A : Type 0} (extract : Extract A) (is : Stream) (item : A)
    → is.eof ≡ true
    → fails is ≡ false
    → get_item extract is item ≡ returns (item, is)
unfolding get_item
get_item_at_end extract is item e f = ground arith

abbrev OnlyBad : {A : Type 0} → Outcome A → Type 0
OnlyBad m = ((r : _) × (m ≡ returns r)) ⊎ (m ≡ throws bad_data_error)

bind-OnlyBad :
    {A B : Type 0} (m : Outcome A) (f : A → Outcome B)
    → OnlyBad m
    → ((a : A) → OnlyBad (f a))
    → OnlyBad (m >>= f)
bind-OnlyBad m f (inl (a, e)) k = rw e (k a)
bind-OnlyBad m f (inr e) k = inr (rw e)

get_item-OnlyBad :
    {A : Type 0} (extract : Extract A) (is : Stream) (item : A) → OnlyBad (get_item extract is item)
get_item-OnlyBad extract is item = elim (get_item_throws extract is item) [
  | inl (r, e, f) ↦ inl (r, e)
  | inr e ↦ inr e
]

operation_of-OnlyBad : (c : ℕ) → OnlyBad (operation_of c)
unfolding operation_of
operation_of-OnlyBad c = elim (Bool-cases (c == b'+')) [
  | inl e ↦ inl (add, rw e)
  | inr p ↦ elim (Bool-cases (c == b'-')) [
    | inl e ↦ inl (subtract, rw (p, e))
    | inr m ↦ elim (Bool-cases (c == b'*')) [
      | inl e ↦ inl (multiply, rw (p, m, e))
      | inr t ↦ elim (Bool-cases (c == b'/')) [
        | inl e ↦ inl (divide, rw (p, m, t, e))
        | inr d ↦ inr (rw (p, m, t, d))
      ]
    ]
  ]
]

module _ {F : Type 0} (extract_int : Extract ℕ) (extract_double : Extract F) where
  -- A line that ends behind its first operand is not refused: whatever character the unset
  -- variable `op` holds decides, and where it is an operator the request is accepted with that
  -- operation and the unset second operand.
  pub short_line :
      (line : Bytes) (d : ClientData F) (op id : ℕ) (x : F) (is1 is2 : Stream) (o : Operation)
      → get_item extract_int (stream_on line) d.id ≡ returns (id, is1)
      → get_item extract_double is1 d.operand1 ≡ returns (x, is2)
      → is2.eof ≡ true
      → fails is2 ≡ false
      → operation_of op ≡ returns o
      → parse_datum extract_int extract_double line d op
        ≡ returns (record d { id = id; operand1 = x; operation = o })
  unfolding parse_datum
  short_line line d op id x is1 is2 o e1 e2 e f eo =
      rw
        (
          e1,
          e2,
          get_item_at_end extract_char is2 op e f,
          eo,
          get_item_at_end extract_double is2 d.operand2 e f,
        )
        refl

  -- The parse of a line ends with a request, or with `bad_data_error` and no other exception.
  pub parse_datum_throws :
      (line : Bytes) (d : ClientData F) (op : ℕ)
      → ((r : ClientData F) × (parse_datum extract_int extract_double line d op ≡ returns r))
        ⊎ (parse_datum extract_int extract_double line d op ≡ throws bad_data_error)
  unfolding parse_datum
  parse_datum_throws line d op =
      bind-OnlyBad (get_item extract_int (stream_on line) d.id) _
        (get_item-OnlyBad extract_int (stream_on line) d.id)
        λ (id, is1).
          bind-OnlyBad (get_item extract_double is1 d.operand1) _
            (get_item-OnlyBad extract_double is1 d.operand1)
            λ (x, is2).
              bind-OnlyBad (get_item extract_char is2 op) _ (get_item-OnlyBad extract_char is2 op)
                λ (c, is3). bind-OnlyBad (operation_of c) _ (operation_of-OnlyBad c) λ o.
                  bind-OnlyBad (get_item extract_double is3 d.operand2) _
                    (get_item-OnlyBad extract_double is3 d.operand2) (λ (y, is4). inl (_, refl))
