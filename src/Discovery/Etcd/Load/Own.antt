-- ===== src/Discovery/Etcd/Load/Own.antt =====
-- What Load of discovery_etcd.go has done when it returns.
use xgame.Common.{ℕ, ◌≡◌, refl, sym, ◌∙◌, ap, subst, Option, String, List, string_eq, arith}
use xgame.Go.{Result, ok, err, panic, Exec, lift, >>=-ok, ◌>>◌}
use xgame.Pb.{Member}
use xgame.Discovery.{pre_init}
use xgame.Discovery.Etcd.{key_prefix, add_values}
use xgame.Discovery.Etcd.Load.{
  Client, Node, Etcd, fatal_of, must, get_lease_id, register_key, own_member, register_own,
  add_found_values, list_members, load,
}

fatal-ok : {A : Type 0} (r : Result A) (a : A) → fatal_of r ≡ ok a → r ≡ ok a
unfolding fatal_of
fatal-ok (ok b) a h = h
fatal-ok (err e) a h = cc
fatal-ok (panic x) a h = cc

module _ {C : Type 0} where
  must-ok :
      {A : Type 0} (f : Exec C A) (s : Etcd C) (a : A)
      → (must f s).0 ≡ ok a
      → ((f s.client).0 ≡ ok a) × ((must f s).1 ≡ record s { client = (f s.client).1 })
  unfolding must
  must-ok f s a h = (fatal-ok (f s.client).0 a h, refl)

  record Leased (client : Client C) (s t : Etcd C) : Type 0 where
    lease : ℕ
    granted : (client.grant s.ttl s.client).0 ≡ ok lease
    leaves : t ≡ record s {
      client = (client.keep_alive lease (client.grant s.ttl s.client).1).1;
      lease_id = lease;
    }

  get_lease_id-Leased :
      (client : Client C) (s : Etcd C)
      → (get_lease_id client s).0 ≡ ok tt
      → Leased client s (get_lease_id client s).1
  unfolding get_lease_id must
  get_lease_id-Leased client s h =
      let (lease, got, step, rest) = >>=-ok (must (client.grant s.ttl)) _ s h in
      record {
        lease = lease;
        granted = (must-ok (client.grant s.ttl) s lease got).0;
        leaves = ap (λ x. x.1) step;
      }

  register_own-ok :
      (client : Client C) (marshal : Member → Result (List ℕ)) (node : Node) (value : List ℕ)
      (s : Etcd C)
      → marshal (own_member node) ≡ ok value
      → (register_own client marshal node s).0 ≡ ok tt
      → ((client.put (register_key node) value s.lease_id s.client).0 ≡ ok tt)
        × ((register_own client marshal node s).1
            ≡ record s { client = (client.put (register_key node) value s.lease_id s.client).1 })
  unfolding register_own must
  register_own-ok client marshal node value s writes h =
      let (own, wrote, step, rest) =
        >>=-ok (lift (fatal_of (marshal (own_member node))))
          (λ own. must (client.put (register_key node) own s.lease_id)) s h in
      let q : own ≡ value =
        ground (arith, fatal-ok (marshal (own_member node)) own wrote, writes) in
      (
        subst (λ v. (client.put (register_key node) v s.lease_id s.client).0 ≡ ok tt) q
            (fatal-ok (client.put (register_key node) own s.lease_id s.client).0 tt rest),
        ap (λ x. x.1) step
            ∙ ap
                (λ v. record s {
                  client = (client.put (register_key node) v s.lease_id s.client).1;
                })
                q,
      )

  record Listed (client : Client C) (unmarshal : List ℕ → Option Member) (project : String)
      (s t : Etcd C) : Type 0 where
    values : List (List ℕ)
    got : (client.get_prefix (key_prefix project) s.client).0 ≡ ok values
    leaves : t ≡ record s {
      client = (client.get_prefix (key_prefix project) s.client).1;
      discovery = add_values unmarshal project values s.discovery;
    }

  list_members-Listed :
      (client : Client C) (unmarshal : List ℕ → Option Member) (project : String) (s : Etcd C)
      → (list_members client unmarshal project s).0 ≡ ok tt
      → Listed client unmarshal project s (list_members client unmarshal project s).1
  unfolding list_members must add_found_values
  list_members-Listed client unmarshal project s h =
      let (values, found, step, rest) =
        >>=-ok (must (client.get_prefix (key_prefix project))) _ s h in
      record {
        values = values;
        got = fatal-ok (client.get_prefix (key_prefix project) s.client).0 values found;
        leaves = ap (λ x. x.1) step;
      }

  -- What Load has done when it returns: it was granted a lease of 10 seconds, put the member under its key with
  -- this lease, and then took the values under the prefix as the members.
  pub record Loaded (client : Client C) (unmarshal : List ℕ → Option Member) (node : Node)
      (value : List ℕ) (t : Etcd C) : Type 0 where
    pub lease : ℕ
    pub kept : t.lease_id ≡ lease
    pub asked : C
    pub granted : (client.grant 10 asked).0 ≡ ok lease
    pub registering : C
    pub registered : (client.put (register_key node) value lease registering).0 ≡ ok tt
    pub values : List (List ℕ)
    pub got :
        (client.get_prefix
          (key_prefix node.project)
          (client.put (register_key node) value lease registering).1).0
        ≡ ok values
    pub members : t.discovery ≡ add_values unmarshal node.project values pre_init

  pub load-Loaded :
      (client : Client C) (marshal : Member → Result (List ℕ)) (unmarshal : List ℕ → Option Member)
      (node : Node) (value : List ℕ) (s : Etcd C)
      → marshal (own_member node) ≡ ok value
      → (load client marshal unmarshal node s).0 ≡ ok tt
      → Loaded client unmarshal node value (load client marshal unmarshal node s).1
  unfolding load must
  load-Loaded client marshal unmarshal node value s writes h =
      let start : Etcd C = record s { discovery = pre_init; ttl = 10 } in
      let (_, _, step1, h1) =
        >>=-ok (must client.connect)
          (λ _.
            get_lease_id client
            >> (register_own client marshal node >> list_members client unmarshal node.project))
          start h in
      let s1 : Etcd C = (must client.connect start).1 in
      let (_, ok2, step2, h2) =
        >>=-ok (get_lease_id client)
          (λ _. register_own client marshal node >> list_members client unmarshal node.project) s1
          h1 in
      let v2 = get_lease_id-Leased client s1 ok2 in
      let (_, ok3, step3, h3) =
        >>=-ok (register_own client marshal node) (λ _. list_members client unmarshal node.project)
          (get_lease_id client s1).1 h2 in
      let (put3, leaves3) =
        register_own-ok client marshal node value (get_lease_id client s1).1 writes ok3 in
      let leased = (get_lease_id client s1).1 in
      let listing = (register_own client marshal node leased).1 in
      let v4 = list_members-Listed client unmarshal node.project listing h3 in
      subst (Loaded client unmarshal node value) (sym (ap (λ x. x.1) (step1 ∙ step2 ∙ step3)))
        (record {
          lease = leased.lease_id;
          kept =
              ap (λ (t : Etcd C). t.lease_id) (v4.leaves) ∙ ap (λ (t : Etcd C). t.lease_id) leaves3;
          asked = s1.client;
          granted = v2.granted ∙ ap ok (sym (ap (λ (t : Etcd C). t.lease_id) v2.leaves));
          registering = leased.client;
          registered = put3;
          values = v4.values;
          got =
              subst (λ c. (client.get_prefix (key_prefix node.project) c).0 ≡ ok v4.values)
                (ap (λ (t : Etcd C). t.client) leaves3) v4.got;
          members =
              ap (λ (t : Etcd C). t.discovery) v4.leaves
              ∙ ap (add_values unmarshal node.project v4.values) (
                  ap (λ (t : Etcd C). t.discovery) leaves3
                  ∙ ap (λ (t : Etcd C). t.discovery) v2.leaves);
        })
