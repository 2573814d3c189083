-- ===== src/Api/KvHandler/Writes.antt =====
-- api/KVHandler.cpp: what stands behind the answers to a write.
use distributed_key_value_st.Base.{
  ℕ, ◌≤◌, ◌≡◌, ◌≢◌, refl, sym, ◌∙◌, ap, ◌⊎◌, inl, inr, true, false, Option, none, some, Text, codes,
  text_eq, text_eq_refl, text_eq_iff, [], ◌∷◌, ◌++◌, add64, is_empty, lookup, arith, Bool-cases,
  Option-cases, ◌==◌, ==_iff,
}
use distributed_key_value_st.Base.Int.{ℤ}
use distributed_key_value_st.Base.Json.{Json, null, boolean, number, string, array, object}
use distributed_key_value_st.Storage.KvStore.{KvEntry}
use distributed_key_value_st.Storage.KvStore.Ops.{cas_lem}
use distributed_key_value_st.Storage.OrderedMap
use distributed_key_value_st.Raft.Rpc.{RaftRole, leader, follower, candidate, puts, LogEntry}
use distributed_key_value_st.Raft.Log.{append, last_index}
use distributed_key_value_st.Raft.Node.State.{RaftNode}
use distributed_key_value_st.Raft.Node.Replication.{is_leader}
use distributed_key_value_st.Raft.Node.Apply.{
  ProposeResult, proposal, begin_propose, wait_is_over, end_propose,
}
use distributed_key_value_st.Raft.Node.Proposing.{end_propose_ok}
use distributed_key_value_st.Http.Request.{HttpRequest}
use distributed_key_value_st.Http.Response.{
  HttpResponse, typed, respond_created, bad_request, conflict, internal_error, service_unavailable,
}
use distributed_key_value_st.Api.KvHandler.{
  propose, redirect_to_leader, put_fields, put_answer, put_key, cas_fields, compare_and_swap,
}

is_leader_iff : (r : RaftRole) → is_leader r ≡ true → r ≡ leader
unfolding is_leader
is_leader_iff leader h = refl
is_leader_iff follower h = cc
is_leader_iff candidate h = cc

differ : (a b : ℕ) → (a == b) ≡ false → a ≢ b
differ a b h e =
    let same : (a == b) ≡ true = (==_iff a b).1 e in let bad : true ≡ false = sym same ∙ h in cc

sum_cases {ℓ κ} :
    {A : Type ℓ} {B : Type κ} (s : A ⊎ B) → ((a : A) × (s ≡ inl a)) ⊎ ((b : B) × (s ≡ inr b))
sum_cases (inl a) = inl (a, refl)
sum_cases (inr b) = inr (b, refl)

-- The status of a response, and the one of a refusal, which is 400 where nothing is refused.
abbrev pub status_of : Option HttpResponse → ℕ
status_of none = 0
status_of (some r) = r.status_code

abbrev refusal {ℓ} : {A : Type ℓ} → Option (HttpResponse ⊎ A) → ℕ
refusal none = 400
refusal (some (inl r)) = r.status_code
refusal (some (inr a)) = 400

module _ (dump : Json → Text) where
  refusal-put_fields : (j : Option Json) → refusal (put_fields dump j) ≡ 400
  unfolding put_fields bad_request typed
  refusal-put_fields none = refl
  refusal-put_fields (some null) = refl
  refusal-put_fields (some (boolean b)) = refl
  refusal-put_fields (some (number n)) = refl
  refusal-put_fields (some (string t)) = refl
  refusal-put_fields (some (array items)) = refl
  refusal-put_fields (some (object fields)) = ground arith

  refusal-cas_fields : (j : Option Json) → refusal (cas_fields dump j) ≡ 400
  unfolding cas_fields bad_request typed
  refusal-cas_fields none = refl
  refusal-cas_fields (some null) = refl
  refusal-cas_fields (some (boolean b)) = refl
  refusal-cas_fields (some (number n)) = refl
  refusal-cas_fields (some (string t)) = refl
  refusal-cas_fields (some (array items)) = refl
  refusal-cas_fields (some (object fields)) = ground arith

  redirect_status : (n : RaftNode) → (redirect_to_leader dump n).status_code ≡ 503
  unfolding redirect_to_leader service_unavailable typed
  redirect_status n = ground arith

-- `m` is `n` with one more entry at the end of its log, for this operation in the node's term.
abbrev pub Logged : Text → Text → ℤ → RaftNode → ℕ → RaftNode → Type 0
Logged key value ttl_ms n index m =
    (e : LogEntry) × (m.log.entries ≡ n.log.entries ++ e ∷ [])
    × (e.term ≡ n.current_term)
    × (e.index ≡ index)
    × (e.op_type ≡ puts)
    × (e.key ≡ key)
    × (e.value ≡ value)
    × (e.ttl_ms ≡ ttl_ms)

module _ (parse : Text → Option Json) (dump : Json → Text) (wait : RaftNode → RaftNode) where
  put_answer_created :
      (key : Text) (r : ProposeResult) (n : RaftNode)
      → (put_answer parse dump wait key r n).status_code ≡ 201
      → r.ok ≡ true
  unfolding put_answer internal_error respond_created typed
  put_answer_created key r n h = ground (arith, redirect_status dump n)

  begin_propose_refused :
      (key value : Text) (ttl_ms : ℤ) (n : RaftNode) (r : ProposeResult)
      → (begin_propose dump key value puts ttl_ms n).0 ≡ inl r
      → r.ok ≡ false
  unfolding begin_propose
  begin_propose_refused key value ttl_ms n r h = ground arith

  begin_propose-Logged :
      (key value : Text) (ttl_ms : ℤ) (n : RaftNode) (index : ℕ)
      → (begin_propose dump key value puts ttl_ms n).0 ≡ inr index
      → Logged key value ttl_ms n index (begin_propose dump key value puts ttl_ms n).1
  unfolding begin_propose proposal append
  begin_propose-Logged key value ttl_ms n index h = elim (Bool-cases (is_leader n.role)) [
    | inl leads ↦
        let at : ◌≡◌ {A = ProposeResult ⊎ ℕ} (inr (add64 (last_index n.log) 1)) (inr index) =
          rw (leads, begin_propose) at h in
        rw (leads, begin_propose)
          (proposal dump key value puts ttl_ms n, refl, refl, cc (at), refl, refl, refl, refl)
    | inr follows ↦
        let no_way : (begin_propose dump key value puts ttl_ms n).0 ≡ inr index = h in
        absurd (ground (arith, no_way, follows))
  ]

  propose_ok :
      (key value : Text) (ttl_ms : ℤ) (n : RaftNode)
      → (propose dump wait key value puts ttl_ms n).0.ok ≡ true
      → let (begun, m) = begin_propose dump key value puts ttl_ms n in
        (index : ℕ) × (begun ≡ inr index)
        × Logged key value ttl_ms n index m
        × ((propose dump wait key value puts ttl_ms n).1 ≡ wait m)
        × ((wait m).role ≡ leader)
        × (index ≤ (wait m).last_applied)
  unfolding propose
  propose_ok key value ttl_ms n h =
      let m = (begin_propose dump key value puts ttl_ms n).1 in
      elim (sum_cases (begin_propose dump key value puts ttl_ms n).0) [
        | inl (r, refused) ↦
            let no_way = begin_propose_refused key value ttl_ms n r refused in
            let claimed : r.ok ≡ true = rw (refused, propose) at h in cc
        | inr (index, begun) ↦
            let claimed : (end_propose index (wait_is_over index (wait m)) (wait m)).ok ≡ true =
              rw (begun, propose) at h in
            let (leads, applied) = (end_propose_ok index (wait m)).0 claimed in
            (
              index,
              begun,
              begin_propose-Logged key value ttl_ms n index begun,
              rw (begun, propose) refl,
              leads,
              applied,
            )
      ]

  put_key_proposes :
      (req : HttpRequest) (n : RaftNode) (key value : Text) (ttl_ms : ℤ)
      → lookup (codes "key") req.path_params ≡ some key
      → is_empty key ≡ false
      → put_fields dump (parse req.body) ≡ some (inr (value, ttl_ms))
      → is_leader n.role ≡ true
      → (put_key parse dump wait req n).1 ≡ (propose dump wait key value puts ttl_ms n).1
  unfolding put_key
  put_key_proposes req n key value ttl_ms found named read leads =
      rw (found, named, read, leads, put_key) refl

  -- Put answers 201 only where the request has a key and a value, the node was a leader and has put an
  -- entry of its term with this operation, the key, the value and the time to live behind its log, and
  -- at the end of the wait it is a leader and has applied the entry's index.
  pub put_key_created :
      (req : HttpRequest) (n : RaftNode)
      → status_of (put_key parse dump wait req n).0 ≡ 201
      → (key : Text) × (value : Text) × (ttl_ms : ℤ) × (lookup (codes "key") req.path_params
          ≡ some key)
        × (put_fields dump (parse req.body) ≡ some (inr (value, ttl_ms)))
        × (n.role ≡ leader)
        × (let (begun, m) = begin_propose dump key value puts ttl_ms n in
            (index : ℕ) × (begun ≡ inr index)
            × Logged key value ttl_ms n index m
            × ((put_key parse dump wait req n).1 ≡ wait m)
            × ((wait m).role ≡ leader)
            × (index ≤ (wait m).last_applied))
  unfolding put_key bad_request typed
  put_key_created req n h = elim (Option-cases (lookup (codes "key") req.path_params)) [
    | inl missing ↦
        let no_way : 0 ≡ 201 = rw (missing, put_key) at h in absurd (differ 0 201 refl no_way)
    | inr (key, found) ↦ elim (Bool-cases (is_empty key)) [
      | inl bare ↦
          let no_way : 400 ≡ 201 = rw (found, bare, put_key) at h in
          absurd (differ 400 201 refl no_way)
      | inr named ↦ elim (Option-cases (put_fields dump (parse req.body))) [
        | inl throws ↦
            let no_way : 0 ≡ 201 = rw (found, named, throws, put_key) at h in
            absurd (differ 0 201 refl no_way)
        | inr (fields, read) ↦ elim (sum_cases fields) [
          | inl (r, refused) ↦
              let status : r.status_code ≡ 400 =
                ap refusal (sym (read ∙ ap some refused))
                ∙ refusal-put_fields dump (parse req.body) in
              let no_way : r.status_code ≡ 201 = rw (found, named, read, refused, put_key) at h in
              absurd (differ 400 201 refl (sym status ∙ no_way))
          | inr ((value, ttl_ms), good) ↦ elim (Bool-cases (is_leader n.role)) [
            | inr follows ↦
                let status = redirect_status dump n in
                let no_way : (redirect_to_leader dump n).status_code ≡ 201 =
                  rw (found, named, read, good, follows, put_key) at h in
                absurd (differ 503 201 refl (sym status ∙ no_way))
            | inl leads ↦
                let r = propose dump wait key value puts ttl_ms n in
                let created : (put_answer parse dump wait key r.0 r.1).status_code ≡ 201 =
                  rw (found, named, read, good, leads, put_key) at h in
                let (index, begun, logged, ends, leads', applied) =
                  propose_ok key value ttl_ms n (put_answer_created key r.0 r.1 created) in
                (
                  key,
                  value,
                  ttl_ms,
                  found,
                  read ∙ ap some good,
                  is_leader_iff n.role leads,
                  (
                    index,
                    begun,
                    logged,
                    put_key_proposes req n key value ttl_ms found named (read ∙ ap some good) leads
                        ∙ ends,
                    leads',
                    applied,
                  ),
                )
          ]
        ]
      ]
    ]
  ]

-- CompareAndSwap answers 200 only on a leader whose table had the key of the request with the expected
-- value. Then the table has the new value under this key and is what it was at all others, and nothing
-- but the store has changed in the node: no entry for it is in the log, nor in the write-ahead log.
pub compare_and_swap_local :
    (parse : Text → Option Json) (dump : Json → Text) (now : ℕ) (req : HttpRequest) (n : RaftNode)
    → status_of (compare_and_swap parse dump now req n).0 ≡ 200
    → let m = (compare_and_swap parse dump now req n).1 in
      (key : Text) × (expected : Text) × (new_value : Text) × (e : KvEntry) × (e' : KvEntry)
      × (lookup (codes "key") req.path_params ≡ some key)
      × (cas_fields dump (parse req.body) ≡ some (inr (expected, new_value)))
      × (n.role ≡ leader)
      × (OrderedMap.find key n.store.table ≡ some e)
      × (e.value ≡ expected)
      × (OrderedMap.find key m.store.table ≡ some e')
      × (e'.value ≡ new_value)
      × ((j : Text) → j ≢ key → OrderedMap.find j m.store.table ≡ OrderedMap.find j n.store.table)
      × (m ≡ record n { store = m.store })
unfolding compare_and_swap conflict typed
compare_and_swap_local parse dump now req n h =
    elim (Option-cases (lookup (codes "key") req.path_params)) [
      | inl missing ↦
          let no_way : 0 ≡ 200 = rw (missing, compare_and_swap) at h in
          absurd (differ 0 200 refl no_way)
      | inr (key, found) ↦ elim (Option-cases (cas_fields dump (parse req.body))) [
        | inl throws ↦
            let no_way : 0 ≡ 200 = rw (found, throws, compare_and_swap) at h in
            absurd (differ 0 200 refl no_way)
        | inr (fields, read) ↦ elim (sum_cases fields) [
          | inl (r, refused) ↦
              let status : r.status_code ≡ 400 =
                ap refusal (sym (read ∙ ap some refused))
                ∙ refusal-cas_fields dump (parse req.body) in
              let no_way : r.status_code ≡ 200 = rw (found, read, refused, compare_and_swap) at h in
              absurd (differ 400 200 refl (sym status ∙ no_way))
          | inr ((expected, new_value), good) ↦ elim (Bool-cases (is_leader n.role)) [
            | inr follows ↦
                let status = redirect_status dump n in
                let no_way : (redirect_to_leader dump n).status_code ≡ 200 =
                  rw (found, read, good, follows, compare_and_swap) at h in
                absurd (differ 503 200 refl (sym status ∙ no_way))
            | inl leads ↦ elim (cas_lem now key expected new_value 0 n.store) [
              | inl (ok, e, there, old, table) ↦
                  let same : text_eq key key ≡ true = text_eq_refl key in
                  rw (found, read, good, leads, compare_and_swap)
                    (
                      key,
                      expected,
                      new_value,
                      e,
                      _,
                      refl,
                      refl,
                      is_leader_iff n.role leads,
                      there,
                      old,
                      rw same at (table key),
                      refl,
                      λ j other. (let at_j = table j in ground (arith, at_j, text_eq_iff key j)),
                      refl,
                    )
              | inr (fails, _, _) ↦
                  let no_way : 409 ≡ 200 =
                    rw (found, read, good, leads, fails, compare_and_swap) at h in
                  absurd (differ 409 200 refl no_way)
            ]
          ]
        ]
      ]
    ]
