-- ===== src/Wire/MsgType.antt =====
-- src/wire.c: the table of message types.
use thalovant_embedded_c.Base.{
  ℕ, ◌<◌, Bool, true, false, Option, none, some, List, [], ◌∷◌, ◌≡◌, refl, Bytes, All, ◌==◌, arith,
  all_below, all_below→eq,
}
use thalovant_embedded_c.Wire.{msg_types, find_id, find_name, msg_type_id, msg_type_name}

find_id_bound :
    (table : List (Bytes × ℕ)) (name : Bytes) (n id : ℕ)
    → All (λ p. p.1 < n) table
    → find_id table name ≡ some id
    → id < n
unfolding find_id
find_id_bound [] name n id h e = cc
find_id_bound ((m, i) ∷ table) name n id (h, hs) e =
    ground (arith, find_id_bound table name n id hs)

-- Every known type has an id below 13, which the five bits of the binary frame hold.
pub msg_type_id_bound : (name : Option Bytes) (id : ℕ) → msg_type_id name ≡ some id → id < 13
unfolding msg_type_id
msg_type_id_bound none id e = cc
msg_type_id_bound (some name) id e = find_id_bound msg_types name 13 id (omega arith) e

same_id : Option Bytes → ℕ → Bool
same_id none id = true
same_id (some name) id = elim (msg_type_id (some name)) [ none ↦ false | some i ↦ i == id ]

id_table : all_below 13 (λ id. same_id (msg_type_name id) id) ≡ true
unfolding all_below same_id msg_type_id msg_type_name
id_table = refl

same_id→eq :
    (o : Option Bytes) (name : Bytes) (id : ℕ)
    → o ≡ some name
    → same_id o id ≡ true
    → msg_type_id (some name) ≡ some id
unfolding same_id
same_id→eq none name id e h = cc
same_id→eq (some n) name id e h = ground arith

find_name_bound :
    (table : List (Bytes × ℕ)) (name : Bytes) (n id : ℕ)
    → All (λ p. p.1 < n) table
    → find_name table id ≡ some name
    → id < n
unfolding find_name
find_name_bound [] name n id h e = cc
find_name_bound ((m, i) ∷ table) name n id (h, hs) e =
    ground (arith, find_name_bound table name n id hs)

-- The name of an id has that id again, also for id 0 with its two names.
pub msg_type_id-name :
    (id : ℕ) (name : Bytes) → msg_type_name id ≡ some name → msg_type_id (some name) ≡ some id
msg_type_id-name id name e =
    let small : id < 13 =
      find_name_bound msg_types name 13 id (omega arith) (unfold msg_type_name in e) in
    same_id→eq (msg_type_name id) name id e (all_below→eq 13 _ id_table id small)
