-- ===== src/Etcd/Samples.antt =====
-- An etcd that is a list of entries.
use Prim.Native.String
use Prim.Native.String.{String}
use mathlib.Core.List.{Memᴰ}
use mathlib.Core.Path.{subst}
use zqim.Prelude.{
  ◌≡◌, ◌≢◌, refl, sym, ap, ◌∙◌, arith, Bool, true, false, ◌&&◌, Option, none, some, List, [], ◌∷◌,
  if◌then◌else◌, Bool-cases, inl, inr, ◌⊎◌, string_eq,
}
use zqim.Prelude.Maps
use zqim.Etcd.{trim_prefix, Etcd, or_same, trimmed}
use zqim.Etcd.Keys.{trim_prefix-append}
use zqim.Etcd.Held.{IsEtcd}

abbrev pub Entries : Type 0
Entries = List (String × String)

abbrev pub holds : String → Entries → Option String
holds k e = Maps.lookup k e

abbrev has_prefix : String → String → Bool
has_prefix p k = string_eq.beq (String.◌++◌ p (trim_prefix k p)) k

abbrev is_some_of : String → Option String → Bool
is_some_of v none = false
is_some_of v (some w) = string_eq.beq w v

abbrev is_listed : String → Entries → String × String → Bool
is_listed p e kv = has_prefix p kv.0 && is_some_of kv.1 (holds kv.0 e)

abbrev select : String → Entries → Entries → Entries
select p e [] = []
select p e (kv ∷ kvs) = let rest = select p e kvs in if is_listed p e kv then kv ∷ rest else rest

abbrev pub etcd : Etcd Entries
etcd = record {
  new_client = λ endpoints e. true;
  status = λ endpoint e. true;
  grant = λ ttl e. some (7, e);
  put_with_lease = λ k v l e. some (Maps.insert k v e);
  get_with_prefix = λ p e. some (select p e e);
}

is_some_of-some : (v : String) (o : Option String) → o ≡ some v → is_some_of v o ≡ true
is_some_of-some v none h = cc
is_some_of-some v (some w) h = (string_eq.beq_iff w v).1 (ap (or_same v) h)

some_of : (v : String) (o : Option String) → is_some_of v o ≡ true → o ≡ some v
some_of v none h = cc
some_of v (some w) h = ap some ((string_eq.beq_iff w v).0 h)

Mem-lookup : (k v : String) (e : Entries) → holds k e ≡ some v → Memᴰ (k, v) e
unfolding Maps.lookup
Mem-lookup k v [] h = cc
Mem-lookup k v ((j, w) ∷ e) h = elim (Bool-cases (string_eq.beq j k)) [
  | inl x ↦
      let found : holds k ((j, w) ∷ e) ≡ some w = rw (x, Maps.lookup) refl in
      let same : w ≡ v = ap (or_same w) (sym found ∙ h) in
      Memᴰ.head (ap (λ u. (k, u)) (sym same) ∙ ap (λ u. (u, w)) (sym ((string_eq.beq_iff j k).0 x)))
  | inr x ↦
      let passed : holds k ((j, w) ∷ e) ≡ holds k e = rw (x, Maps.lookup) refl in
      Memᴰ.tail (Mem-lookup k v e (sym passed ∙ h))
]

Mem-select :
    (p : String) (e : Entries) (kv : String × String) (kvs : Entries)
    → Memᴰ kv kvs
    → is_listed p e kv ≡ true
    → Memᴰ kv (select p e kvs)
Mem-select p e kv [] i h = elim i [ ]
Mem-select p e kv (x ∷ kvs) (Memᴰ.head s) h = rw (sym (ap (is_listed p e) s) ∙ h) (Memᴰ.head s)
Mem-select p e kv (x ∷ kvs) (Memᴰ.tail i) h = elim (Bool-cases (is_listed p e x)) [
  | inl a ↦ rw a (Memᴰ.tail (Mem-select p e kv kvs i h))
  | inr a ↦ rw a (Mem-select p e kv kvs i h)
]

both : (a b : Bool) → (a && b) ≡ true → (a ≡ true) × (b ≡ true)
both a b h = ground (arith, h)

held_first :
    (p : String) (e : Entries) (n v : String) (x : String × String)
    → is_listed p e x ≡ true
    → ◌≡◌ {A = String × String} (n, v) (trim_prefix x.0 p, x.1)
    → holds (String.◌++◌ p n) e ≡ some v
held_first p e n v x a q =
    let (b, c) = both (has_prefix p x.0) (is_some_of x.1 (holds x.0 e)) a in
    ap (λ m. holds (String.◌++◌ p m) e) (ap (λ y. y.0) q)
    ∙ ap (λ k. holds k e) ((string_eq.beq_iff _ x.0).0 b)
    ∙ some_of x.1 (holds x.0 e) c
    ∙ ap some (sym (ap (λ y. y.1) q))

Mem-cases : {A : Type 0} {a x : A} {xs : List A} → Memᴰ a (x ∷ xs) → (a ≡ x) ⊎ Memᴰ a xs
Mem-cases (Memᴰ.head e) = inl e
Mem-cases (Memᴰ.tail i) = inr i

held_of :
    (p : String) (e : Entries) (n v : String) (kvs : Entries)
    → Memᴰ (n, v) (trimmed p (select p e kvs))
    → holds (String.◌++◌ p n) e ≡ some v
held_of p e n v [] i = elim i [ ]
held_of p e n v (x ∷ kvs) i = elim (Bool-cases (is_listed p e x)) [
  | inl a ↦
      let listed : select p e (x ∷ kvs) ≡ x ∷ select p e kvs = rw a refl in
      elim (Mem-cases (subst (λ r. Memᴰ (n, v) (trimmed p r)) listed i)) [
        | inl q ↦ held_first p e n v x a q
        | inr j ↦ held_of p e n v kvs j
      ]
  | inr a ↦
      let passed : select p e (x ∷ kvs) ≡ select p e kvs = rw a refl in
      held_of p e n v kvs (subst (λ r. Memᴰ (n, v) (trimmed p r)) passed i)
]

prefixed :
    (p n v : String) (e : Entries)
    → holds (String.◌++◌ p n) e ≡ some v
    → is_listed p e (String.◌++◌ p n, v) ≡ true
prefixed p n v e h =
    let whole = ap (String.◌++◌ p) (trim_prefix-append p n) in
    ground (
      arith,
      (string_eq.beq_iff (String.◌++◌ p (trim_prefix (String.◌++◌ p n) p)) (String.◌++◌ p n)).1
          whole,
      is_some_of-some v (holds (String.◌++◌ p n) e) h,
    )

pub etcd-IsEtcd : IsEtcd etcd holds
etcd-IsEtcd = record {
  put_self = λ k v l e e' h. ap (holds k) (sym (ap (or_same e) h)) ∙ Maps.lookup-insert_self k v e;
  put_apart = λ k v j l e e' d h. ap (holds j) (sym (ap (or_same e) h)) ∙ other k v j e d;
  listed = λ p n v e kvs g h.
      subst (Memᴰ (String.◌++◌ p n, v)) (ap (or_same e) g)
        (Mem-select p e _ e (Mem-lookup _ v e h) (prefixed p n v e h));
  current = λ p n v e kvs g i.
      held_of p e n v e (subst (λ r. Memᴰ (n, v) (trimmed p r)) (sym (ap (or_same e) g)) i);
}
  where
    other : (k v j : String) (e : Entries) → k ≢ j → holds j (Maps.insert k v e) ≡ holds j e
    other k v j e d = ground (arith, Maps.lookup-insert k j v e, string_eq.beq_iff k j, d)
