-- ===== src/Etcd/Keys.antt =====
-- The keys of etcd, and what TrimPrefix makes of them.
use Prim.Native.Char.{code}
use Prim.Native.String
use Prim.Native.String.{String}
use Prim.Native.String.append
use mathlib.Core.List.{Memᴰ}
use zqim.Prelude.{
  ◌≡◌, ◌≢◌, refl, sym, ap, ◌∙◌, arith, Bool, true, false, none, some, List, [], ◌∷◌, ◌==◌, ==_iff,
  if◌then◌else◌, string_eq,
}
use zqim.Etcd.{behind, or_whole, trim_prefix, im_prefix, grpc_prefix, trimmed}

behind-append : (p n : String) → behind p (String.◌++◌ p n) ≡ some n
behind-append String.[] n = ap (behind String.[]) (append.nil n)
behind-append (String.◌∷◌ c p) n =
    ap (behind (String.◌∷◌ c p)) (append.cons c p n)
    ∙ rw ((==_iff (code c) (code c)).1 refl) (behind-append p n)

-- A key is trimmed to the server's name.
pub trim_prefix-append : (p n : String) → trim_prefix (String.◌++◌ p n) p ≡ n
unfolding trim_prefix
trim_prefix-append p n = ap (or_whole (String.◌++◌ p n)) (behind-append p n)

pub Mem-trimmed :
    (p n v : String) (kvs : List (String × String))
    → Memᴰ (String.◌++◌ p n, v) kvs
    → Memᴰ (n, v) (trimmed p kvs)
Mem-trimmed p n v [] i = elim i [ ]
Mem-trimmed p n v (x ∷ kvs) (Memᴰ.head e) =
    Memᴰ.head
      (ap (λ k. (k, v)) (sym (trim_prefix-append p n)) ∙ ap (λ kv. (trim_prefix kv.0 p, kv.1)) e)
Mem-trimmed p n v (x ∷ kvs) (Memᴰ.tail i) = Memᴰ.tail (Mem-trimmed p n v kvs i)

differs : String → String → Bool
differs String.[] q = false
differs (String.◌∷◌ c p) String.[] = false
differs (String.◌∷◌ c p) (String.◌∷◌ d q) =
    let rest = differs p q in if code c == code d then rest else true

behind-differs : (p q n : String) → differs p q ≡ true → behind p (String.◌++◌ q n) ≡ none
unfolding differs
behind-differs String.[] q n h = absurd (ground (arith, h))
behind-differs (String.◌∷◌ c p) String.[] n h = absurd (ground (arith, h))
behind-differs (String.◌∷◌ c p) (String.◌∷◌ d q) n h =
    ap (behind (String.◌∷◌ c p)) (append.cons d q n) ∙ ground (arith, h, behind-differs p q n)

-- The two prefixes make two keys of a name.
pub keys_apart : (n : String) → String.◌++◌ im_prefix n ≢ String.◌++◌ grpc_prefix n
unfolding differs
keys_apart n e =
    let f : none ≡ some n =
      sym (behind-differs im_prefix grpc_prefix n refl)
      ∙ ap (behind im_prefix) (sym e)
      ∙ behind-append im_prefix n in
    absurd (ground (arith, f))
