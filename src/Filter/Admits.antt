-- ===== src/Filter/Admits.antt =====
-- What the rules of a filter admit, as a statement about the rules, and what `allows_tuple` makes
-- of it.
use mathlib.Core.Bool.{or-true}
use mathlib.Core.Logic.{◌⊎◌, inl, inr}
use usb_camera_over_tailscal.Base.{
  ◌≤◌, ◌≡◌, ◌↔◌, refl, sym, ◌∙◌, Bool, true, false, ◌&&◌, ◌||◌, List, [], ◌∷◌, arith, any, ◌==◌,
  Bool-cases, if◌then◌else◌,
}
use usb_camera_over_tailscal.Filter.{
  contains, Dst, Rule, Filter, Tuple, proto_tcp, port_matters, proto_allowed, dst_hit, allows_rules,
  allows_tuple,
}

-- Some element satisfies the predicate.
abbrev pub Some {ℓ} : {A : Type ℓ} → (A → Type 0) → List A → Type 0
Some P [] = ⊥
Some P (x ∷ xs) = P x ⊎ Some P xs

-- The destination is in the set, and its port in the range where the protocol has ports.
pub record Hits (t : Tuple) (d : Dst) : Type 0 where
  pub inside : contains d.set t.dst ≡ true
  pub port : (port_matters t.proto ≡ false) ⊎ ((d.first ≤ t.dst_port) × (t.dst_port ≤ d.last))

-- The rule names the protocol, a source and a destination of the tuple.
pub record Admits (t : Tuple) (r : Rule) : Type 0 where
  pub proto : proto_allowed r t.proto ≡ true
  pub src : Some (λ s. contains s t.src ≡ true) r.srcs
  pub dst : Some (Hits t) r.dsts

any_iff-cons {ℓ} :
    {A : Type ℓ} (p : A → Bool) (P : A → Type 0) (x : A) (xs : List A)
    → (p x ≡ true) ↔ P x
    → (any p xs ≡ true) ↔ Some P xs
    → (any p (x ∷ xs) ≡ true) ↔ Some P (x ∷ xs)
any_iff-cons p P x xs h rest = (forth, back)
  where
    forth : (p x || any p xs) ≡ true → P x ⊎ Some P xs
    forth e = elim (Bool-cases (p x)) [
      | inl here ↦ inl (h.0 here)
      | inr there ↦ inr (rest.0 (rw there at e))
    ]

    back : P x ⊎ Some P xs → (p x || any p xs) ≡ true
    back (inl here) = rw (h.1 here)
    back (inr there) = rw (rest.1 there) (or-true (p x))

any_iff {ℓ} :
    {A : Type ℓ} (p : A → Bool) (P : A → Type 0)
    → ((x : A) → (p x ≡ true) ↔ P x)
    → (xs : List A) → (any p xs ≡ true) ↔ Some P xs
any_iff p P h [] = ((λ e. cc), (λ e. absurd e))
any_iff p P h (x ∷ xs) = any_iff-cons p P x xs (h x) (any_iff p P h xs)

dst_hit_iff : (t : Tuple) (d : Dst) → (dst_hit t d ≡ true) ↔ Hits t d
unfolding dst_hit
dst_hit_iff t d = (
  (λ e. record { inside = ground arith; port = ground arith }),
  (λ h. ground (arith, h.inside, h.port)),
)

-- The three tests on one rule.
rule_hit : Tuple → Rule → Bool
rule_hit t r =
    proto_allowed r t.proto && (any (λ s. contains s t.src) r.srcs && any (dst_hit t) r.dsts)

rule_hit_iff : (t : Tuple) (r : Rule) → (rule_hit t r ≡ true) ↔ Admits t r
unfolding rule_hit
rule_hit_iff t r = (
  (λ e. record {
    proto = ground arith;
    src =
        (any_iff (λ s. contains s t.src) (λ s. contains s t.src ≡ true) (λ s. (λ x. x, λ x. x))
            r.srcs).0
          (ground arith);
    dst = (any_iff (dst_hit t) (Hits t) (dst_hit_iff t) r.dsts).0 (ground arith);
  }),
  (λ a. ground (
    arith,
    a.proto,
    (any_iff (λ s. contains s t.src) (λ s. contains s t.src ≡ true) (λ s. (λ x. x, λ x. x))
          r.srcs).1
        a.src,
    (any_iff (dst_hit t) (Hits t) (dst_hit_iff t) r.dsts).1 a.dst,
  )),
)

allows_rules-any : (t : Tuple) (rs : List Rule) → allows_rules rs t ≡ any (rule_hit t) rs
unfolding allows_rules rule_hit
allows_rules-any t [] = refl
allows_rules-any t (r ∷ rs) = ground (arith, allows_rules-any t rs)

-- A tuple passes the filter exactly when it is a TCP segment of an established flow, or some rule
-- admits it: the rule allows its protocol, a source set holds its source, and one destination
-- holds its address and, for TCP and UDP, its port.
pub allows_tuple_iff :
    (f : Filter) (t : Tuple)
    → (allows_tuple f t ≡ true)
      ↔ (((t.proto ≡ proto_tcp) × (t.tcp_established ≡ true)) ⊎ Some (Admits t) f.rules)
unfolding allows_tuple
allows_tuple_iff f t = (forth, back)
  where
    rules_iff : (any (rule_hit t) f.rules ≡ true) ↔ Some (Admits t) f.rules
    rules_iff = any_iff (rule_hit t) (Admits t) (rule_hit_iff t) f.rules

    forth :
        (if t.proto == proto_tcp && t.tcp_established then true else allows_rules f.rules t) ≡ true
        → ((t.proto ≡ proto_tcp) × (t.tcp_established ≡ true)) ⊎ Some (Admits t) f.rules
    forth e = elim (Bool-cases (t.proto == proto_tcp && t.tcp_established)) [
      | inl flow ↦ inl (ground arith)
      | inr other ↦ inr (rules_iff.0 (sym (allows_rules-any t f.rules) ∙ (rw other at e)))
    ]

    back :
        ((t.proto ≡ proto_tcp) × (t.tcp_established ≡ true)) ⊎ Some (Admits t) f.rules
        → (if t.proto == proto_tcp && t.tcp_established then true else allows_rules f.rules t)
          ≡ true
    back (inl flow) = ground (arith, flow)
    back (inr some_rule) = ground (arith, allows_rules-any t f.rules, rules_iff.1 some_rule)
