-- ===== src/Session/Addresses/Best.antt =====
-- Which address of a relay is used.
use mathlib.Core.Path.{subst}
use mathlib.Core.List.{append_assoc}
use skypier_chat.Prelude.{
  ℕ, String, ◌==◌, eq_iff, ◌≡◌, refl, ◌∙◌, any, any-append, ◌||◌, ◌++◌, Bool, true, false, Option,
  none, some, List, [], ◌∷◌, leb, arith, Bool-cases, inl, inr, if◌then◌else◌, All,
}
use skypier_chat.Prelude.Maps.{Dict, get}
use skypier_chat.Session.Addresses.{
  extract_peer_id, relay_address_rank, set_entry, is_better, add_under, add_relay_address,
  add_relay_addresses,
}

get-set_entry :
    (m : Dict String) (k j v : String)
    → get (set_entry m k v) j ≡ (if k == j then some v else get m j)
unfolding get
get-set_entry [] k j v = refl
get-set_entry ((i, u) ∷ m) k j v = elim (Bool-cases (i == k)) [
  | inl e ↦ simp e (ground (arith, e, eq_iff i k, eq_iff i j, eq_iff k j))
  | inr e ↦ simp e (ground (arith, e, get-set_entry m k j v, eq_iff i k, eq_iff i j, eq_iff k j))
]

-- The address that stands for a relay ranks `r` at most, which is the better the lower.
abbrev pub ranks_within : ℕ → Option String → Bool
ranks_within r none = false
ranks_within r (some address) = leb (relay_address_rank address) r

-- The relay of the address, if it names one, has an address that ranks as well at least.
abbrev pub has_best_under : Option String → Dict String → String → Bool
has_best_under none m address = true
has_best_under (some peer) m address = ranks_within (relay_address_rank address) (get m peer)

abbrev pub has_best : Dict String → String → Bool
has_best m address = has_best_under (extract_peer_id address) m address

ranks_within-better :
    (r : ℕ) (b : String) (o : Option String)
    → is_better b o ≡ true
    → ranks_within r o ≡ true
    → leb (relay_address_rank b) r ≡ true
ranks_within-better r b none better h = absurd (cc h)
ranks_within-better r b (some c) better h = ground (arith, better, h)

ranks_within-set_entry :
    (r : ℕ) (peer b q : String) (m : Dict String)
    → is_better b (get m q) ≡ true
    → ranks_within r (get m peer) ≡ true
    → ranks_within r (get (set_entry m q b) peer) ≡ true
ranks_within-set_entry r peer b q m better h = elim (Bool-cases (q == peer)) [
  | inl e ↦
      let same : q ≡ peer = ground (arith, e, eq_iff q peer) in
      rw (get-set_entry m q peer b) (
        simp e (
          ranks_within-better r b (get m peer)
            (subst (λ x. is_better b (get m x) ≡ true) same better) h))
  | inr e ↦ rw (get-set_entry m q peer b) (simp e h)
]

ranks_within-add :
    (r : ℕ) (peer b : String) (o : Option String) (m : Dict String)
    → ranks_within r (get m peer) ≡ true
    → ranks_within r (get (add_under o b m) peer) ≡ true
ranks_within-add r peer b none m h = h
ranks_within-add r peer b (some q) m h = elim (Bool-cases (is_better b (get m q))) [
  | inl e ↦ simp e (ranks_within-set_entry r peer b q m e h)
  | inr e ↦ simp e h
]

has_best-add :
    (o : Option String) (b address : String) (m : Dict String)
    → has_best_under o m address ≡ true
    → has_best_under o (add_relay_address b m) address ≡ true
unfolding add_relay_address
has_best-add none b address m h = refl
has_best-add (some peer) b address m h =
    ranks_within-add (relay_address_rank address) peer b (extract_peer_id b) m h

-- The address that was just added.
ranks_within-worse :
    (b : String) (o : Option String)
    → is_better b o ≡ false
    → ranks_within (relay_address_rank b) o ≡ true
ranks_within-worse b none h = absurd (cc h)
ranks_within-worse b (some c) h = ground (arith, h)

has_best-added :
    (o : Option String) (b : String) (m : Dict String) → has_best_under o (add_under o b m) b ≡ true
has_best-added none b m = refl
has_best-added (some q) b m = elim (Bool-cases (is_better b (get m q))) [
  | inl e ↦ simp e (rw (get-set_entry m q q b) (ground (arith, eq_iff q q)))
  | inr e ↦ simp e (ranks_within-worse b (get m q) e)
]

has_best-add_all :
    (addresses : List String) (m : Dict String) (address : String)
    → has_best m address ≡ true
    → has_best (add_relay_addresses addresses m) address ≡ true
has_best-add_all [] m address h = h
has_best-add_all (b ∷ bs) m address h =
    has_best-add_all bs (add_relay_address b m) address
      (has_best-add (extract_peer_id address) b address m h)

add_relay_addresses-has_best :
    (addresses : List String) (m : Dict String)
    → All (λ address. has_best (add_relay_addresses addresses m) address ≡ true) addresses
unfolding add_relay_address
add_relay_addresses-has_best [] m = tt
add_relay_addresses-has_best (b ∷ bs) m = (
  has_best-add_all bs (add_relay_address b m) b (has_best-added (extract_peer_id b) b m),
  add_relay_addresses-has_best bs (add_relay_address b m),
)

-- Each entry stands under the peer id of its address.
abbrev pub IsFiled : String × String → Type 0
IsFiled e = extract_peer_id e.1 ≡ some e.0

set_entry-IsFiled :
    (m : Dict String) (k v : String)
    → extract_peer_id v ≡ some k
    → All IsFiled m
    → All IsFiled (set_entry m k v)
set_entry-IsFiled [] k v h filed = (h, tt)
set_entry-IsFiled ((j, u) ∷ m) k v h filed = elim (Bool-cases (j == k)) [
  | inl e ↦ simp e ((h, filed.1))
  | inr e ↦ simp e ((filed.0, set_entry-IsFiled m k v h filed.1))
]

add_under-IsFiled :
    (o : Option String) (b : String) (m : Dict String)
    → extract_peer_id b ≡ o
    → All IsFiled m
    → All IsFiled (add_under o b m)
add_under-IsFiled none b m e filed = filed
add_under-IsFiled (some q) b m e filed = elim (Bool-cases (is_better b (get m q))) [
  | inl t ↦ simp t (set_entry-IsFiled m q b e filed)
  | inr t ↦ simp t filed
]

add_relay_addresses-IsFiled :
    (addresses : List String) (m : Dict String)
    → All IsFiled m
    → All IsFiled (add_relay_addresses addresses m)
unfolding add_relay_address
add_relay_addresses-IsFiled [] m filed = filed
add_relay_addresses-IsFiled (b ∷ bs) m filed =
    add_relay_addresses-IsFiled bs (add_relay_address b m)
      (add_under-IsFiled (extract_peer_id b) b m refl filed)

-- No two entries stand under one peer id.
abbrev pub has_key : String → Dict String → Bool
has_key k m = any (λ e. e.0 == k) m

abbrev pub HasOneEach : Dict String → Type 0
HasOneEach [] = Unit
HasOneEach ((k, v) ∷ m) = (has_key k m ≡ false) × HasOneEach m

has_key-set_entry :
    (m : Dict String) (k j v : String) → has_key j (set_entry m k v) ≡ (k == j || has_key j m)
has_key-set_entry [] k j v = ground arith
has_key-set_entry ((i, u) ∷ m) k j v = elim (Bool-cases (i == k)) [
  | inl e ↦ simp e (ground (arith, e, eq_iff i k, eq_iff i j, eq_iff k j))
  | inr e ↦ simp e (ground (arith, has_key-set_entry m k j v))
]

set_entry-HasOneEach :
    (m : Dict String) (k v : String) → HasOneEach m → HasOneEach (set_entry m k v)
set_entry-HasOneEach [] k v h = (refl, tt)
set_entry-HasOneEach ((i, u) ∷ m) k v h = elim (Bool-cases (i == k)) [
  | inl e ↦ simp e (subst (λ x. has_key x m ≡ false) ((eq_iff i k).0 e) h.0, h.1)
  | inr e ↦ simp e (
    ground (arith, e, h.0, has_key-set_entry m k i v, eq_iff i k, eq_iff k i),
    set_entry-HasOneEach m k v h.1,
  )
]

-- The address of each entry is one of the candidates.
abbrev pub is_among : List String → String × String → Bool
is_among candidates e = any (λ address. address == e.1) candidates

set_entry-among :
    (candidates : List String) (m : Dict String) (k v : String)
    → is_among candidates (k, v) ≡ true
    → All (λ e. is_among candidates e ≡ true) m
    → All (λ e. is_among candidates e ≡ true) (set_entry m k v)
set_entry-among candidates [] k v new h = (new, tt)
set_entry-among candidates ((i, u) ∷ m) k v new h = elim (Bool-cases (i == k)) [
  | inl e ↦ simp e (new, h.1)
  | inr e ↦ simp e (h.0, set_entry-among candidates m k v new h.1)
]

-- A map of relays with one entry for each, whose addresses are candidates.
abbrev pub IsChosen : List String → Dict String → Type 0
IsChosen candidates m = HasOneEach m × All (λ e. is_among candidates e ≡ true) m

add_under-IsChosen :
    (candidates : List String) (o : Option String) (b : String) (m : Dict String)
    → any (λ address. address == b) candidates ≡ true
    → IsChosen candidates m
    → IsChosen candidates (add_under o b m)
add_under-IsChosen candidates none b m new h = h
add_under-IsChosen candidates (some q) b m new h = elim (Bool-cases (is_better b (get m q))) [
  | inl e ↦ simp e (set_entry-HasOneEach m q b h.0, set_entry-among candidates m q b new h.1)
  | inr e ↦ simp e h
]

add_relay_addresses-IsChosen :
    (candidates addresses : List String) (m : Dict String)
    → All (λ b. any (λ address. address == b) candidates ≡ true) addresses
    → IsChosen candidates m
    → IsChosen candidates (add_relay_addresses addresses m)
unfolding add_relay_address
add_relay_addresses-IsChosen candidates [] m new h = h
add_relay_addresses-IsChosen candidates (b ∷ bs) m new h =
    add_relay_addresses-IsChosen candidates bs (add_relay_address b m) new.1
      (add_under-IsChosen candidates (extract_peer_id b) b m new.0 h)

All-among :
    (before addresses : List String)
    → All (λ b. any (λ address. address == b) (before ++ addresses) ≡ true) addresses
All-among before [] = tt
All-among before (b ∷ bs) = (
  any-append (λ address. address == b) before (b ∷ bs) ∙ ground (arith, eq_iff b b),
  subst (λ xs. All (λ c. any (λ address. address == c) xs ≡ true) bs)
      (append_assoc before (b ∷ []) bs) (All-among (before ++ b ∷ []) bs),
)

-- Of the candidates' addresses each relay keeps one: no relay has two entries; each entry's address
-- is one of the candidates and names the relay that it stands for; and each candidate that names a
-- relay has an entry for it whose address ranks as well as the candidate at least, secure web
-- sockets before WebTransport before all others.
pub add_relay_addresses_best :
    (addresses : List String)
    → HasOneEach (add_relay_addresses addresses [])
      × All (λ e. is_among addresses e ≡ true) (add_relay_addresses addresses [])
      × All IsFiled (add_relay_addresses addresses [])
      × All (λ address. has_best (add_relay_addresses addresses []) address ≡ true) addresses
add_relay_addresses_best addresses =
    let chosen =
      add_relay_addresses-IsChosen addresses addresses [] (All-among [] addresses) (tt, tt) in
    (
      chosen.0,
      chosen.1,
      add_relay_addresses-IsFiled addresses [] tt,
      add_relay_addresses-has_best addresses [],
    )
