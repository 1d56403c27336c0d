-- ===== src/Snat/Linux/Chains/Ready.antt =====
-- The chains and rules that a new manager of pkg/snat/manager_linux.go finds or makes.
use fast_vip.Prelude.{
  ℕ, String, Bool, true, false, List, [], ◌∷◌, Option, none, some, Error, Result, ok, err, ◌≡◌,
  refl, arith, Option-cases, inl, inr, subst,
}
use fast_vip.Snat.Linux.{Iptables, LinuxManager, nat_table, filter_table, snat_chain, forward_chain}
use fast_vip.Snat.Linux.Chains.{
  and_then, asked, create_missing, insert_missing, ensure_chain, ensure_forward_chain, new_manager,
}

pub data Fact : Type 0 where
  has_chain : String → String → Fact
  has_rule : String → String → List String → Fact

-- What iptables promises of the calls that make chains and rules: one that succeeds has done it, and what
-- was there stays.
pub record Makes {T : Type 0} (ops : Iptables T) : Type 1 where
  pub Holds : Fact → T → Type 0
  pub chain_found :
      (table chain : String) (t : T)
      → ops.chain_exists table chain t ≡ ok true
      → Holds (has_chain table chain) t
  pub rule_found :
      (table chain : String) (spec : List String) (t : T)
      → ops.exists table chain spec t ≡ ok true
      → Holds (has_rule table chain spec) t
  pub chain_made :
      (table chain : String) (t : T)
      → (ops.new_chain table chain t).0 ≡ none
      → Holds (has_chain table chain) (ops.new_chain table chain t).1
  pub rule_inserted :
      (table chain : String) (pos : ℕ) (spec : List String) (t : T)
      → (ops.insert_at table chain pos spec t).0 ≡ none
      → Holds (has_rule table chain spec) (ops.insert_at table chain pos spec t).1
  pub rule_appended :
      (table chain : String) (spec : List String) (t : T)
      → (ops.append_unique table chain spec t).0 ≡ none
      → Holds (has_rule table chain spec) (ops.append_unique table chain spec t).1
  pub new_chain_stays :
      (f : Fact) (table chain : String) (t : T)
      → Holds f t
      → Holds f (ops.new_chain table chain t).1
  pub insert_at_stays :
      (f : Fact) (table chain : String) (pos : ℕ) (spec : List String) (t : T)
      → Holds f t
      → Holds f (ops.insert_at table chain pos spec t).1
  pub append_unique_stays :
      (f : Fact) (table chain : String) (spec : List String) (t : T)
      → Holds f t
      → Holds f (ops.append_unique table chain spec t).1

abbrev pub snat_jump : List String
snat_jump = "-j" ∷ snat_chain ∷ []

abbrev pub forward_jump : List String
forward_jump = "-j" ∷ forward_chain ∷ []

abbrev pub conntrack : List String
conntrack = "-m" ∷ "conntrack" ∷ "--ctstate" ∷ "ESTABLISHED,RELATED" ∷ "-j" ∷ "ACCEPT" ∷ []

module _ {T : Type 0} where
  -- A property of the tables passes along a chain of calls.
  and_then-keeps :
      (P : T → Type 0) (text : String) (r : Option Error × T) (next : T → Option Error × T)
      → P r.1
      → ((t : T) → P t → P (next t).1)
      → P (and_then text r next).1
  and_then-keeps P text (none, t) next p q = q t p
  and_then-keeps P text (some e, t) next p q = p

  asked-keeps :
      (P : T → Type 0) (text : String) (a : Result Bool) (t : T) (next : Bool → Option Error × T)
      → P t
      → ((b : Bool) → P (next b).1)
      → P (asked text a t next).1
  asked-keeps P text (ok b) t next p q = q b
  asked-keeps P text (err e) t next p q = p

  -- Where a chain of calls succeeds, each call has succeeded.
  and_then-succeeds :
      (P : T → Type 0) (text : String) (r : Option Error × T) (next : T → Option Error × T)
      → (and_then text r next).0 ≡ none
      → (r.0 ≡ none → (next r.1).0 ≡ none → P (next r.1).1)
      → P (and_then text r next).1
  and_then-succeeds P text (none, t) next e q = q refl e
  and_then-succeeds P text (some x, t) next e q = absurd (ground (arith, e))

  asked-succeeds :
      (P : T → Type 0) (text : String) (a : Result Bool) (t : T) (next : Bool → Option Error × T)
      → (asked text a t next).0 ≡ none
      → ((b : Bool) → a ≡ ok b → (next b).0 ≡ none → P (next b).1)
      → P (asked text a t next).1
  asked-succeeds P text (ok b) t next e q = q b refl e
  asked-succeeds P text (err x) t next e q = absurd (ground (arith, e))

module _ {T : Type 0} (ops : Iptables T) (laws : Makes ops) where
  create_missing-keeps :
      (f : Fact) (table chain : String) (b : Bool) (t : T)
      → laws.Holds f t
      → laws.Holds f (create_missing ops table chain b t).1
  create_missing-keeps f table chain true t h = h
  create_missing-keeps f table chain false t h = laws.new_chain_stays f table chain t h

  insert_missing-keeps :
      (f : Fact) (b : Bool) (t : T) → laws.Holds f t → laws.Holds f (insert_missing ops b t).1
  insert_missing-keeps f true t h = h
  insert_missing-keeps f false t h =
      laws.insert_at_stays f filter_table "FORWARD" 1 forward_jump t h

  create_missing-makes :
      (table chain : String) (b : Bool) (t : T)
      → ops.chain_exists table chain t ≡ ok b
      → (create_missing ops table chain b t).0 ≡ none
      → laws.Holds (has_chain table chain) (create_missing ops table chain b t).1
  create_missing-makes table chain true t found made = laws.chain_found table chain t found
  create_missing-makes table chain false t found made = laws.chain_made table chain t made

  insert_missing-makes :
      (b : Bool) (t : T)
      → ops.exists filter_table "FORWARD" forward_jump t ≡ ok b
      → (insert_missing ops b t).0 ≡ none
      → laws.Holds (has_rule filter_table "FORWARD" forward_jump) (insert_missing ops b t).1
  insert_missing-makes true t found made =
      laws.rule_found filter_table "FORWARD" forward_jump t found
  insert_missing-makes false t found made =
      laws.rule_inserted filter_table "FORWARD" 1 forward_jump t made

  ensure_forward_chain-keeps :
      (f : Fact) (t : T) → laws.Holds f t → laws.Holds f (ensure_forward_chain ops t).1
  unfolding ensure_forward_chain
  ensure_forward_chain-keeps f t h =
      asked-keeps (laws.Holds f) _ (ops.chain_exists filter_table forward_chain t) t _ h λ there.
        and_then-keeps (laws.Holds f) _ (create_missing ops filter_table forward_chain there t) _
          (create_missing-keeps f filter_table forward_chain there t h)
          λ t1 h1.
            asked-keeps (laws.Holds f) _ (ops.exists filter_table "FORWARD" forward_jump t1) t1 _ h1
              λ jumps.
                and_then-keeps (laws.Holds f) _ (insert_missing ops jumps t1) _
                  (insert_missing-keeps f jumps t1 h1)
                  λ t2 h2.
                    and_then-keeps (laws.Holds f) _
                      (ops.append_unique filter_table forward_chain conntrack t2) _
                      (laws.append_unique_stays f filter_table forward_chain conntrack t2 h2)
                      λ t3 h3. h3

  -- The chain of the SNAT rules and the jump to it.
  abbrev pub HasSnat : T → Type 0
  HasSnat t =
      laws.Holds (has_chain nat_table snat_chain) t
      × laws.Holds (has_rule nat_table "POSTROUTING" snat_jump) t

  -- The chain of the FORWARD rules, the jump to it and the rule for return traffic.
  abbrev pub HasForward : T → Type 0
  HasForward t =
      laws.Holds (has_chain filter_table forward_chain) t
      × laws.Holds (has_rule filter_table "FORWARD" forward_jump) t
      × laws.Holds (has_rule filter_table forward_chain conntrack) t

  ensure_chain-HasSnat : (t : T) → (ensure_chain ops t).0 ≡ none → HasSnat (ensure_chain ops t).1
  unfolding ensure_chain
  ensure_chain-HasSnat t e =
      asked-succeeds HasSnat _ (ops.chain_exists nat_table snat_chain t) t _ e λ there found e1.
        let made_t = create_missing ops nat_table snat_chain there t in
        and_then-succeeds HasSnat _ made_t _ e1 λ made e2.
          and_then-succeeds HasSnat _ (ops.append_unique nat_table "POSTROUTING" snat_jump made_t.1)
            _ e2
            λ appended e3. (
              laws.append_unique_stays (has_chain nat_table snat_chain) nat_table "POSTROUTING"
                  snat_jump made_t.1 (create_missing-makes nat_table snat_chain there t found made),
              laws.rule_appended nat_table "POSTROUTING" snat_jump made_t.1 appended,
            )

  ensure_forward_chain-HasForward :
      (t : T) → (ensure_forward_chain ops t).0 ≡ none → HasForward (ensure_forward_chain ops t).1
  unfolding ensure_forward_chain
  ensure_forward_chain-HasForward t e =
      asked-succeeds HasForward _ (ops.chain_exists filter_table forward_chain t) t _ e
        λ there found e1.
          let t1 = create_missing ops filter_table forward_chain there t in
          and_then-succeeds HasForward _ t1 _ e1 λ made e2.
            asked-succeeds HasForward _ (ops.exists filter_table "FORWARD" forward_jump t1.1) t1.1 _
              e2
              λ jumps seen e3.
                let t2 = insert_missing ops jumps t1.1 in
                let chain = has_chain filter_table forward_chain in
                let jump = has_rule filter_table "FORWARD" forward_jump in
                and_then-succeeds HasForward _ t2 _ e3 λ inserted e4.
                  and_then-succeeds HasForward _
                    (ops.append_unique filter_table forward_chain conntrack t2.1) _ e4
                    λ appended e5. (
                      laws.append_unique_stays chain filter_table forward_chain conntrack t2.1 (
                          insert_missing-keeps chain jumps t1.1
                            (create_missing-makes filter_table forward_chain there t found made)),
                      laws.append_unique_stays jump filter_table forward_chain conntrack t2.1
                          (insert_missing-makes jumps t1.1 seen inserted),
                      laws.rule_appended filter_table forward_chain conntrack t2.1 appended,
                    )

  -- If the calls of iptables that succeed make the chain or the rule that they are asked for, and
  -- no such call takes one away, then a manager that NewManager gives without an error has its
  -- chain EZLB-SNAT with the jump from POSTROUTING, and its chain EZLB-FORWARD with the jump from
  -- FORWARD and the rule for return traffic, whichever of them were there before.
  pub new_manager-ready :
      (t : T) (m : LinuxManager T) → (new_manager ops t).0 ≡ ok m → HasSnat m.ipt × HasForward m.ipt
  unfolding new_manager
  new_manager-ready t m e =
      let t1 = (ensure_chain ops t).1 in
      elim (Option-cases (ensure_chain ops t).0) [
        | inr (x, f) ↦ absurd (ground (arith, e, f))
        | inl f ↦ elim (Option-cases (ensure_forward_chain ops t1).0) [
          | inr (x, g) ↦ absurd (ground (arith, e, f, g))
          | inl g ↦
              let (chain, jump) = ensure_chain-HasSnat t f in
              let same : (ensure_forward_chain ops t1).1 ≡ m.ipt = ground (arith, e, f, g) in
              subst (λ u. HasSnat u × HasForward u) same
                (
                  (
                    ensure_forward_chain-keeps (has_chain nat_table snat_chain) t1 chain,
                    ensure_forward_chain-keeps (has_rule nat_table "POSTROUTING" snat_jump) t1 jump,
                  ),
                  ensure_forward_chain-HasForward t1 g,
                )
        ]
      ]
