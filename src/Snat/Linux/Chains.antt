-- ===== src/Snat/Linux/Chains.antt =====
-- pkg/snat/manager_linux.go: the chains that the manager sets up when it is made.
pub mod Ready
use fast_vip.Prelude.{
  String, Bool, true, false, [], ◌∷◌, Option, none, some, Error, Result, ok, err, wrap, string_eq,
}
use fast_vip.Snat.Linux.{Iptables, LinuxManager, nat_table, filter_table, snat_chain, forward_chain}

-- `if err != nil { return fmt.Errorf(...) }` after a call that changes the tables.
abbrev pub and_then :
    {T : Type 0} → String → Option Error × T → (T → Option Error × T) → Option Error × T
and_then text (some e, t) next = (some (wrap text e), t)
and_then text (none, t) next = next t

-- The same after a call that only asks.
abbrev pub asked :
    {T : Type 0} → String → Result Bool → T → (Bool → Option Error × T) → Option Error × T
asked text (err e) t next = (some (wrap text e), t)
asked text (ok b) t next = next b

module _ {T : Type 0} (ops : Iptables T) where
  -- `if !exists { NewChain }`
  abbrev pub create_missing : String → String → Bool → T → Option Error × T
  create_missing table chain true t = (none, t)
  create_missing table chain false t = ops.new_chain table chain t

  abbrev pub insert_missing : Bool → T → Option Error × T
  insert_missing true t = (none, t)
  insert_missing false t = ops.insert_at filter_table "FORWARD" 1 ("-j" ∷ forward_chain ∷ []) t

  unfoldable pub ensure_chain : T → Option Error × T
  ensure_chain t =
      asked "failed to check chain existence" (ops.chain_exists nat_table snat_chain t) t λ there.
        and_then "failed to create chain" (create_missing nat_table snat_chain there t) λ t1.
          and_then "failed to add jump rule to POSTROUTING"
            (ops.append_unique nat_table "POSTROUTING" ("-j" ∷ snat_chain ∷ []) t1) λ t2. (none, t2)

  unfoldable pub ensure_forward_chain : T → Option Error × T
  ensure_forward_chain t =
      asked "failed to check chain existence" (ops.chain_exists filter_table forward_chain t) t
        λ there.
          and_then "failed to create chain" (create_missing filter_table forward_chain there t)
            λ t1.
              asked "failed to check jump rule in FORWARD"
                (ops.exists filter_table "FORWARD" ("-j" ∷ forward_chain ∷ []) t1) t1
                λ jumps.
                  and_then "failed to add jump rule to FORWARD" (insert_missing jumps t1) λ t2.
                    and_then "failed to add conntrack rule"
                      (ops.append_unique filter_table forward_chain
                        ("-m" ∷ "conntrack" ∷ "--ctstate" ∷ "ESTABLISHED,RELATED" ∷ "-j" ∷ "ACCEPT"
                          ∷ [])
                        t2)
                      λ t3. (none, t3)

  -- NewManager, on tables that iptables.New has given.
  unfoldable pub new_manager : T → Result (LinuxManager T) × T
  new_manager t =
      let snat = ensure_chain t in
      let forward = ensure_forward_chain snat.1 in
      elim snat.0 [
        | some e ↦ (err (wrap "failed to initialize SNAT chain" e), snat.1)
        | none ↦ elim forward.0 [
          | some e ↦ (err (wrap "failed to initialize FORWARD chain" e), forward.1)
          | none ↦ (ok (record { ipt = forward.1; managed = []; managed_forward = [] }), forward.1)
        ]
      ]
