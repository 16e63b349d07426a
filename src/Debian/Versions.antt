-- ===== src/Debian/Versions.antt =====
-- `compare` of debian_version.py: the epochs, then the keys of the upstream versions, then those of
-- the revisions; a total preorder on all texts.
use cvedeck.Prelude.{
  ℕ, ◌+◌, ◌*◌, ◌≤◌, ◌≡◌, refl, Option, some, arith, length, inl, inr, Bool-cases, ◌==◌,
}
use cvedeck.Prelude.Int.{ℤ, Sign, same, flip, sign, order, sub_ℕ}
use cvedeck.Prelude.Lex.{lex, lex-flip, lex_chain, order_chain, then_by_chain, then_by, AtMost}
use cvedeck.Prelude.Text.{Text}
use cvedeck.Debian.{Version, split, compare, compare_versions, verrevcmp, or_else, is_zero}
use cvedeck.Debian.Key.{key, letters}
use cvedeck.Debian.Order.{Decides, verrevcmp_loop-Decides}

-- The order of two versions by the first `n` weights of their parts.
unfoldable pub version_order : ℕ → Version → Version → Sign
version_order n va vb = then_by (order va.epoch vb.epoch) (
    then_by (lex (key letters n va.upstream) (key letters n vb.upstream))
      (lex (key letters n va.revision) (key letters n vb.revision)))

-- As many weights of a version as its comparison can read.
unfoldable pub enough : Version → ℕ
enough v = 3 * (length v.upstream + length v.revision)

or_else-some :
    (x y : ℤ) (q : Option ℤ)
    → q ≡ some y
    → (z : ℤ) × (or_else (some x) q ≡ some z) × (sign z ≡ then_by (sign x) (sign y))
unfolding or_else
or_else-some x y q e = elim (Bool-cases (is_zero x)) [
  | inl t ↦ (y, rw t e, ground arith)
  | inr f ↦ (x, rw f, ground arith)
]

or_else-Decides :
    (p q : Option ℤ) (s t : Sign) → Decides p s → Decides q t → Decides (or_else p q) (then_by s t)
or_else-Decides p q s t (x, ex, sx) (y, ey, sy) =
    let (z, ez, sz) = or_else-some x y q ey in (z, rw ex ez, cc)

verrevcmp-Decides :
    (a b : Text) (n : ℕ)
    → 3 * (length a + length b) ≤ n
    → Decides (verrevcmp a b) (lex (key letters n a) (key letters n b))
unfolding verrevcmp
verrevcmp-Decides a b n h = verrevcmp_loop-Decides (length a + length b) n a b (omega arith) h

compare_versions-Decides :
    (va vb : Version) (n : ℕ)
    → enough va + enough vb ≤ n
    → Decides (compare_versions va vb) (version_order n va vb)
unfolding compare_versions version_order enough
compare_versions-Decides va vb n h = elim (Bool-cases (va.epoch == vb.epoch)) [
  | inl t ↦
      let tie : order va.epoch vb.epoch ≡ same = ground arith in
      rw (t, tie)
        (or_else-Decides _ _ _ _ (verrevcmp-Decides va.upstream vb.upstream n (omega arith))
          (verrevcmp-Decides va.revision vb.revision n (omega arith)))
  | inr f ↦ rw f (sub_ℕ va.epoch vb.epoch, refl, ground arith)
]

-- `compare` always returns, and its sign is that of the epochs, or of the keys of the upstream
-- versions where the epochs are equal, or of the keys of the revisions where those are equal too,
-- for keys of any length from the one that the two versions need.
pub compare-eq-version_order :
    (a b : Text) (n : ℕ)
    → enough (split a) + enough (split b) ≤ n
    → Decides (compare a b) (version_order n (split a) (split b))
unfolding compare
compare-eq-version_order a b n h = compare_versions-Decides (split a) (split b) n h

version_order-flip :
    (n : ℕ) (va vb : Version) → version_order n vb va ≡ flip (version_order n va vb)
unfolding version_order
version_order-flip n va vb = ground (
  arith,
  lex-flip (key letters n va.upstream) (key letters n vb.upstream),
  lex-flip (key letters n va.revision) (key letters n vb.revision),
)

version_order_chain :
    (n : ℕ) (va vb vc : Version)
    → AtMost (version_order n va vb)
    → AtMost (version_order n vb vc)
    → version_order n va vc ≡ then_by (version_order n va vb) (version_order n vb vc)
unfolding version_order
version_order_chain n va vb vc p q =
    then_by_chain _ _ _ _ _ _ (order_chain va.epoch vb.epoch vc.epoch)
      (then_by_chain _ _ _ _ _ _
        (lex_chain (key letters n va.upstream) (key letters n vb.upstream)
          (key letters n vc.upstream))
        (lex_chain (key letters n va.revision) (key letters n vb.revision)
          (key letters n vc.revision)))
      p q

-- Two versions compare either way round, with opposite signs.
pub compare-flip :
    (a b : Text)
    → (x : ℤ) × (y : ℤ) × (compare a b ≡ some x) × (compare b a ≡ some y) × (sign y ≡ flip (sign x))
compare-flip a b =
    let n = enough (split a) + enough (split b) in
    let (x, ex, sx) = compare-eq-version_order a b n (omega arith) in
    let (y, ey, sy) = compare-eq-version_order b a n (omega arith) in
    (x, y, ex, ey, cc (version_order-flip n (split a) (split b)))

-- If `a` is at most `b` and `b` at most `c`, then `a` is at most `c`, and all three comparisons
-- return.
pub compare_trans :
    (a b c : Text) {x y : ℤ}
    → compare a b ≡ some x
    → compare b c ≡ some y
    → AtMost (sign x)
    → AtMost (sign y)
    → (z : ℤ) × (compare a c ≡ some z) × AtMost (sign z)
compare_trans a b c {x} {y} ex ey p q =
    let n = enough (split a) + enough (split b) + enough (split c) in
    let (x', ex', sx) = compare-eq-version_order a b n (omega arith) in
    let (y', ey', sy) = compare-eq-version_order b c n (omega arith) in
    let (z, ez, sz) = compare-eq-version_order a c n (omega arith) in
    (z, ez, ground (arith, version_order_chain n (split a) (split b) (split c)))
