-- ===== src/Address/Equality/Counting.antt =====
-- areAddressesEqual decides whether two lists hold the same addresses, each as often.
use courier_go.Base.{
  ℕ, suc, ◌+◌, ◌<◌, Bool, true, false, List, [], ◌∷◌, length, ◌≡◌, ◌↔◌, refl, sym, ◌∙◌, arith,
  eq_iff, ==_iff, if◌then◌else◌, Bool-cases,
}
use courier_go.Address.{TcpAddress, address_eq}
use courier_go.Address.Equality.{
  Counts, count_in, increment, count_all, counts_agree, are_addresses_equal,
}

pub address_eq_iff : (t u : TcpAddress) → (address_eq t u ≡ true) ↔ (t ≡ u)
unfolding address_eq
address_eq_iff t u = ground (arith, eq_iff t.host u.host, ==_iff t.port u.port)

-- How often an address stands in a list.
abbrev pub count : TcpAddress → List TcpAddress → ℕ
count a [] = 0
count a (x ∷ l) = let rest = count a l in if address_eq x a then suc rest else rest

-- Two lists hold the same addresses, each as often.
abbrev pub SameAddresses : List TcpAddress → List TcpAddress → Type 0
SameAddresses a b = (x : TcpAddress) → count x a ≡ count x b

count_in-increment :
    (a x : TcpAddress) (m : Counts)
    → count_in x (increment a m) ≡ (if address_eq a x then count_in x m + 1 else count_in x m)
unfolding count_in increment
count_in-increment a x [] = ground arith
count_in-increment a x ((y, n) ∷ m) =
    ground
      (arith, count_in-increment a x m, address_eq_iff y a, address_eq_iff a x, address_eq_iff y x)

count_in-count_all :
    (x : TcpAddress) (l : List TcpAddress) (m : Counts)
    → count_in x (count_all l m) ≡ count x l + count_in x m
unfolding count_all
count_in-count_all x [] m = omega arith
count_in-count_all x (a ∷ l) m =
    ground (arith, count_in-count_all x l (increment a m), count_in-increment a x m)

has_key : TcpAddress → Counts → Bool
has_key a [] = false
has_key a ((x, n) ∷ m) = if address_eq x a then true else has_key a m

abbrev HasUniqueKeys : Counts → Type 0
HasUniqueKeys [] = Unit
HasUniqueKeys ((x, n) ∷ m) = (has_key x m ≡ false) × HasUniqueKeys m

has_key-increment :
    (a x : TcpAddress) (m : Counts)
    → has_key x (increment a m) ≡ (if address_eq a x then true else has_key x m)
unfolding has_key increment
has_key-increment a x [] = refl
has_key-increment a x ((y, n) ∷ m) =
    ground
      (arith, has_key-increment a x m, address_eq_iff y a, address_eq_iff a x, address_eq_iff y x)

increment-HasUniqueKeys :
    (a : TcpAddress) (m : Counts) → HasUniqueKeys m → HasUniqueKeys (increment a m)
unfolding has_key increment
increment-HasUniqueKeys a [] u = (refl, tt)
increment-HasUniqueKeys a ((y, n) ∷ m) u = ground (
  arith,
  increment-HasUniqueKeys a m u.1,
  has_key-increment a y m,
  address_eq_iff y a,
  address_eq_iff a y,
)

count_all-HasUniqueKeys :
    (l : List TcpAddress) (m : Counts) → HasUniqueKeys m → HasUniqueKeys (count_all l m)
unfolding count_all
count_all-HasUniqueKeys [] m u = u
count_all-HasUniqueKeys (a ∷ l) m u =
    count_all-HasUniqueKeys l (increment a m) (increment-HasUniqueKeys a m u)

count_in_absent : (x : TcpAddress) (m : Counts) → has_key x m ≡ false → count_in x m ≡ 0
unfolding has_key count_in
count_in_absent x [] h = refl
count_in_absent x ((y, n) ∷ m) h = ground (arith, count_in_absent x m)

counts_agree_sound :
    (ma mb : Counts) (x : TcpAddress)
    → counts_agree ma mb ≡ true
    → has_key x ma ≡ true
    → count_in x mb ≡ count_in x ma
unfolding has_key count_in counts_agree
counts_agree_sound [] mb x h k = cc
counts_agree_sound ((y, n) ∷ m) mb x h k =
    ground (arith, counts_agree_sound m mb x, address_eq_iff y x)

counts_agree_complete :
    (ma mb : Counts)
    → HasUniqueKeys ma
    → ((x : TcpAddress) → has_key x ma ≡ true → count_in x mb ≡ count_in x ma)
    → counts_agree ma mb ≡ true
unfolding has_key count_in counts_agree
counts_agree_complete [] mb u same = refl
counts_agree_complete ((y, n) ∷ m) mb (fresh, u) same = ground (
  arith,
  same y,
  address_eq_iff y y,
  counts_agree_complete m mb u (λ x k. ground (arith, same x, address_eq_iff y x, fresh)),
)

-- The list without the first occurrence of an address.
erase : TcpAddress → List TcpAddress → List TcpAddress
erase a [] = []
erase a (x ∷ l) = if address_eq x a then l else x ∷ erase a l

count-erase :
    (a x : TcpAddress) (l : List TcpAddress)
    → 0 < count a l
    → count x l ≡ (if address_eq a x then suc (count x (erase a l)) else count x (erase a l))
unfolding erase
count-erase a x [] h = absurd (omega arith)
count-erase a x (y ∷ l) h =
    ground (arith, count-erase a x l, address_eq_iff y a, address_eq_iff a x, address_eq_iff y x)

length-erase :
    (a : TcpAddress) (l : List TcpAddress) → 0 < count a l → length l ≡ suc (length (erase a l))
unfolding erase
length-erase a [] h = absurd (omega arith)
length-erase a (y ∷ l) h = ground (arith, length-erase a l)

-- Lists of one length, where the addresses of the first stand in the second as often.
SameAddresses-of_length :
    (a b : List TcpAddress)
    → length a ≡ length b
    → ((x : TcpAddress) → 0 < count x a → count x b ≡ count x a)
    → SameAddresses a b
SameAddresses-of_length [] [] e same x = refl
SameAddresses-of_length [] (y ∷ b) e same x = absurd (omega arith)
SameAddresses-of_length (y ∷ a) b e same x =
    let here : 0 < count y b = ground (arith, same y, address_eq_iff y y) in
    let rest =
      SameAddresses-of_length a (erase y b) (omega (arith, length-erase y b here))
        (λ z k. ground (arith, same z, count-erase y z b here, address_eq_iff y z)) x in
    ground (arith, rest, count-erase y x b here)

length_of_SameAddresses : (a b : List TcpAddress) → SameAddresses a b → length a ≡ length b
length_of_SameAddresses [] [] same = refl
length_of_SameAddresses [] (y ∷ b) same = absurd (ground (arith, same y, address_eq_iff y y))
length_of_SameAddresses (y ∷ a) b same =
    let here : 0 < count y b = ground (arith, same y, address_eq_iff y y) in
    let rest =
      length_of_SameAddresses a (erase y b) (λ z. ground (arith, same z, count-erase y z b here)) in
    omega (arith, rest, length-erase y b here)

counted : (x : TcpAddress) (l : List TcpAddress) → count_in x (count_all l []) ≡ count x l
unfolding count_in
counted x l = omega (arith, count_in-count_all x l [])

-- areAddressesEqual is true exactly if the two lists hold the same addresses, each as often, in
-- whatever order.
pub are_addresses_equal_iff :
    (a b : List TcpAddress) → (are_addresses_equal a b ≡ true) ↔ SameAddresses a b
unfolding are_addresses_equal
are_addresses_equal_iff a b = (sound, complete)
  where
    sound : are_addresses_equal a b ≡ true → SameAddresses a b
    sound h = SameAddresses-of_length a b (ground (arith, ==_iff (length a) (length b))) (λ x k.
        ground (
          arith,
          counts_agree_sound (count_all a []) (count_all b []) x,
          count_in_absent x (count_all a []),
          counted x a,
          counted x b,
          Bool-cases (has_key x (count_all a [])),
        ))

    complete : SameAddresses a b → are_addresses_equal a b ≡ true
    complete same =
        let e = length_of_SameAddresses a b same in
        let agree =
          counts_agree_complete (count_all a []) (count_all b []) (count_all-HasUniqueKeys a [] tt)
            (λ x k. counted x b ∙ sym (same x) ∙ sym (counted x a)) in
        ground (arith, e, agree)
