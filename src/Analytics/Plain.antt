-- ===== src/Analytics/Plain.antt =====
-- The names of the whitelist, and the parts that a SQL text is put together from, have no semicolon.
use grounded_ops_agent.Analytics.{
  moment, Clauses, is_given, filter_clauses, section, parse_dt, bound_clause, time_bounds, timed,
  time_clause,
}
use grounded_ops_agent.Core.Errors.{Result, ok, raise, >>=-eq-ok}
use grounded_ops_agent.Llm.Types.{Json}
use grounded_ops_agent.Prelude.{
  ℕ, suc, ◌≡◌, refl, subst, inl, inr, Bool, true, not, ◌&&◌, ◌||◌, Option, none, some, List, [],
  ◌∷◌, ◌++◌, arith, Bool-cases, Option-cases, all, ◌==◌, Text, nat_eq, text_eq, contains,
  all-contains,
}
use grounded_ops_agent.Prelude.Dict.{keys, lookup, insert}
use grounded_ops_agent.Security.Whitelist.{TablePolicy, allowed, policy}
use grounded_ops_agent.Text.Chars.{codes, is_digit}
use grounded_ops_agent.Text.Decimal.{decimal}
use grounded_ops_agent.Text.Decimal.RoundTrip.{IsDigits, decimal-IsDigits}
use grounded_ops_agent.Text.Words.{join}

-- The text has no semicolon.
abbrev pub is_plain : Text → Bool
is_plain s = all (λ c. not (c == b';')) s

pub plain-append : (s t : Text) → is_plain s ≡ true → is_plain t ≡ true → is_plain (s ++ t) ≡ true
plain-append [] t hs ht = ht
plain-append (c ∷ s) t hs ht = ground (arith, plain-append s t)

plain-digits : (s : Text) → IsDigits s → is_plain s ≡ true
unfolding is_digit
plain-digits [] h = refl
plain-digits (c ∷ s) h = ground (arith, plain-digits s h.1, h.0)

pub plain-decimal : (n : ℕ) → is_plain (decimal n) ≡ true
plain-decimal n = plain-digits (decimal n) (decimal-IsDigits n)

pub plain-join :
    (sep : Text) (parts : List Text)
    → is_plain sep ≡ true
    → all is_plain parts ≡ true
    → is_plain (join sep parts) ≡ true
unfolding join
plain-join sep [] hs hp = refl
plain-join sep (p ∷ []) hs hp = ground arith
plain-join sep (p ∷ q ∷ ps) hs hp =
    plain-append (p ++ sep) (join sep (q ∷ ps)) (plain-append p sep (ground arith) hs)
      (plain-join sep (q ∷ ps) hs (ground arith))

pub all-append_plain :
    (xs ys : List Text)
    → all is_plain xs ≡ true
    → all is_plain ys ≡ true
    → all is_plain (xs ++ ys) ≡ true
all-append_plain [] ys hx hy = hy
all-append_plain (x ∷ xs) ys hx hy = ground (arith, all-append_plain xs ys)

-- Every name of the whitelist is plain.
abbrev pub optional_plain : Option Text → Bool
optional_plain none = true
optional_plain (some c) = is_plain c

abbrev pub policy_plain : Text → TablePolicy → Bool
policy_plain table p =
    is_plain table
    && all is_plain p.numeric_columns
    && all is_plain p.group_by
    && all is_plain p.filter_columns
    && optional_plain p.time_column

whitelist_plain : all (λ (kv : Text × TablePolicy). policy_plain kv.0 kv.1) allowed ≡ true
unfolding allowed
whitelist_plain = refl

lookup-all :
    (holds : Text → TablePolicy → Bool) (table : Text) (m : List (Text × TablePolicy))
    {p : TablePolicy}
    → all (λ (kv : Text × TablePolicy). holds kv.0 kv.1) m ≡ true
    → lookup table m ≡ some p
    → holds table p ≡ true
unfolding lookup
lookup-all holds table [] h found = cc
lookup-all holds table ((k, v) ∷ m) {p} h found = elim (Bool-cases (k == table)) [
  | inl same ↦
      let here : holds k v ≡ true = ground arith in
      let key = (text_eq.beq_iff k table).0 same in
      let it = rw (same, lookup) at found in cc (here, key, it)
  | inr other ↦
      let later = rw (other, lookup) at found in lookup-all holds table m (ground arith) later
]

pub policy-all :
    (holds : Text → TablePolicy → Bool) (table : Text) {p : TablePolicy}
    → all (λ (kv : Text × TablePolicy). holds kv.0 kv.1) allowed ≡ true
    → policy table ≡ ok p
    → holds table p ≡ true
unfolding policy
policy-all holds table h found = elim (Option-cases (lookup table allowed)) [
  | inl none_ ↦ let found' = rw (none_, policy) at found in cc found'
  | inr (p, some_) ↦
      let found' = rw (some_, policy) at found in
      cc (lookup-all holds table allowed h some_, found')
]

pub policy-plain :
    (table : Text) {p : TablePolicy} → policy table ≡ ok p → policy_plain table p ≡ true
policy-plain table found = policy-all policy_plain table whitelist_plain found

pub plain-section :
    (before sep : Text) (parts : List Text)
    → is_plain before ≡ true
    → is_plain sep ≡ true
    → all is_plain parts ≡ true
    → is_plain (section before sep parts) ≡ true
plain-section before sep [] hb hs hp = refl
plain-section before sep (p ∷ ps) hb hs hp =
    plain-append before (join sep (p ∷ ps)) hb (plain-join sep (p ∷ ps) hs hp)

-- Names of a plain list are plain.
pub all-listed :
    (listed names : List Text)
    → all is_plain listed ≡ true
    → all (contains listed) names ≡ true
    → all is_plain names ≡ true
all-listed listed [] hl h = refl
all-listed listed (c ∷ cs) hl h =
    let this = all-contains is_plain listed c hl (ground arith) in
    ground (arith, this, all-listed listed cs hl)

pub filter_clauses-plain :
    (D : Type 0) (i : ℕ) (filters : List (Text × Json))
    → all is_plain (keys filters) ≡ true
    → all is_plain (filter_clauses {D = D} i filters).0 ≡ true
unfolding filter_clauses
filter_clauses-plain D i [] h = refl
filter_clauses-plain D i ((key, v) ∷ filters) h =
    let clause : is_plain (key ++ codes " = :v" ++ decimal i) ≡ true =
      plain-append (key ++ codes " = :v") (decimal i)
        (plain-append key (codes " = :v") (ground arith) refl) (plain-decimal i) in
    ground (arith, clause, filter_clauses-plain D (suc i) filters)

module _ {D : Type 0} (iso : Text → Option D) where
  abbrev clauses_or : Clauses D → Result (Clauses D) → List Text
  clauses_or d (ok c) = c.0
  clauses_or d (raise e) = d.0

  bound_clause-plain :
      (clause name : Text) (v : Option Text) (c : Clauses D) {out : Clauses D}
      → is_plain clause ≡ true
      → all is_plain c.0 ≡ true
      → bound_clause iso clause name v c ≡ ok out
      → all is_plain out.0 ≡ true
  unfolding bound_clause
  bound_clause-plain clause name none c hc h done_ =
      subst (λ (r : Result (Clauses D)). all is_plain (clauses_or c r) ≡ true) done_ h
  bound_clause-plain clause name (some v) (where_, params) hc h done_ =
      let (d, parsed, out) =
        >>=-eq-ok (parse_dt iso v) (λ d. ok (where_ ++ clause ∷ [], insert name (moment d) params))
          done_ in
      subst (λ (r : Result (Clauses D)). all is_plain (clauses_or (where_, params) r) ≡ true) out
        (all-append_plain where_ (clause ∷ []) h (ground arith))

  time_bounds-plain :
      (column : Text) (start end : Option Text) (c : Clauses D) {out : Clauses D}
      → is_plain column ≡ true
      → all is_plain c.0 ≡ true
      → time_bounds iso column start end c ≡ ok out
      → all is_plain out.0 ≡ true
  unfolding time_bounds
  time_bounds-plain column start end c hc h made =
      let (c', from, to) =
        >>=-eq-ok (bound_clause iso (column ++ codes " >= :start") (codes "start") start c) _
          made in
      bound_clause-plain (column ++ codes " <= :end") (codes "end") end c'
        (plain-append column (codes " <= :end") hc refl)
        (bound_clause-plain (column ++ codes " >= :start") (codes "start") start c
          (plain-append column (codes " >= :start") hc refl) h from)
        to

  timed-plain :
      (table : Text) (column start end : Option Text) (c : Clauses D) {out : Clauses D}
      → optional_plain column ≡ true
      → all is_plain c.0 ≡ true
      → timed iso table column start end c ≡ ok out
      → all is_plain out.0 ≡ true
  unfolding timed
  timed-plain table none start end c hc h made = cc made
  timed-plain table (some column) start end c hc h made =
      time_bounds-plain column start end c hc h made

  pub time_clause-plain :
      (table : Text) (start end : Option Text) (c : Clauses D) {out : Clauses D}
      → all is_plain c.0 ≡ true
      → time_clause iso table start end c ≡ ok out
      → all is_plain out.0 ≡ true
  unfolding time_clause
  time_clause-plain table start end c h made = elim (Bool-cases (is_given start || is_given end)) [
    | inl e ↦
        let made' = rw (e, time_clause) at made in
        let (p, found, then_) = >>=-eq-ok (policy table) _ made' in
        let p_plain = policy-plain table found in
        timed-plain table p.time_column start end c (ground arith) h then_
    | inr e ↦
        let made' = rw (e, time_clause) at made in
        subst (λ (r : Result (Clauses D)). all is_plain (clauses_or c r) ≡ true) made' h
  ]
