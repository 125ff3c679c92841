-- ===== src/Session/Calls.antt =====
-- Histories of calls that JavaScript makes on the sessions of src/session_manager.cc.
use fuse_native.Base.{
  ℕ, ◌<◌, ◌≤◌, ◌≡◌, ◌⊎◌, inl, inr, refl, Bool, true, false, not, Option, none, some, List, [], ◌∷◌,
  ◌==◌, if◌then◌else◌, arith, All, Bool-cases, if_cases,
}
use mathlib.Core.Path.{subst}
use fuse_native.Bridge.Js.{JsValue, get, get_field, is_object}
use fuse_native.Session.{
  Session, initialized, mounted, Initialization, Reply, replied, relocks, terminates, new_session,
  initialize, mount, mount_session, unmount, leave_mounted,
}
use fuse_native.Session.Registry.{
  Sessions, no_sessions, find, put, erase, Outcome, thrown, hung, process_ended, finish, report,
  not_found, id_of, cast_id_of, has_callback, create_session, destroy_session, mount_call,
  unmount_call, session_options, created_with, destroy_found, mount_found, mount_replied,
  unmount_found, is_number,
}

-- The sessions that are registered: initialized with no thread left, or mounted with one.
abbrev pub Live : Session → Type 0
Live s = elim s.state [
  | initialized ↦
      (s.has_session ≡ true)
      × (s.has_bridge ≡ true)
      × (s.loop_running ≡ false)
      × (s.joinable ≡ false)
  | mounted ↦
      (s.has_session ≡ true) × (s.has_bridge ≡ true) × (s.loop_running ≡ true) × (s.joinable ≡ true)
  | _ ↦ true ≡ false
]

-- Every id is below those before it, and the first below `n`; every session is live.
abbrev pub Registered : ℕ → List (ℕ × Session) → Type 0
Registered n [] = Unit
Registered n ((id, s) ∷ rest) = (id < n) × Live s × Registered id rest

-- The outcomes of calls that come back to JavaScript.
abbrev pub ComesBack : Outcome → Type 0
ComesBack hung = ⊥
ComesBack process_ended = ⊥
ComesBack _ = Unit

initialize-Live :
    (o : Initialization) (s : Session) → initialize false new_session o ≡ replied (true, s) → Live s
unfolding initialize new_session
initialize-Live o s e = ground arith

Live-cases : (s : Session) → Live s → (s.state ≡ initialized) ⊎ (s.state ≡ mounted)
Live-cases s v = ground arith

mount-Live :
    (s : Session) (o : Initialization) (mount_ok : Bool)
    → Live s
    → (ok : Bool) × (s' : Session) × (mount s o mount_ok ≡ replied (ok, s')) × Live s'
unfolding mount mount_session
mount-Live s o false v = elim (Live-cases s v) [
  | inl e ↦ (false, s, rw e refl, v)
  | inr e ↦ (false, s, rw e refl, v)
]
mount-Live s o true v = elim (Live-cases s v) [
  | inl e ↦ (
    true,
    record s { state = mounted; loop_running = true; joinable = true },
    ground (arith, e),
    ground (arith, e),
  )
  | inr e ↦ (false, s, rw e refl, v)
]

unmount-Live : (s : Session) → Live s → Live (unmount s false).1
unfolding unmount leave_mounted
unmount-Live s v = ground arith

find-Live :
    (n id : ℕ) (l : List (ℕ × Session)) (s : Session) → Registered n l → find id l ≡ some s → Live s
unfolding find
find-Live n id [] s v e = absurd (ground arith)
find-Live n id ((i, t) ∷ rest) s v e = elim (Bool-cases (i == id)) [
  | inl q ↦ let same : t ≡ s = ground (arith, q) in subst Live (same) v.1
  | inr q ↦ find-Live i id rest s v.2 (ground (arith, q))
]

Registered-le : (m n : ℕ) (l : List (ℕ × Session)) → m ≤ n → Registered m l → Registered n l
Registered-le m n [] h v = tt
Registered-le m n ((i, t) ∷ rest) h v = (omega arith, v.1, v.2)

put-Registered :
    (n id : ℕ) (s : Session) (l : List (ℕ × Session))
    → Live s
    → Registered n l
    → Registered n (put id s l)
unfolding put
put-Registered n id s [] h v = tt
put-Registered n id s ((i, t) ∷ rest) h v =
    if_cases (Registered n) (i == id) _ _ (λ q. (v.0, h, v.2))
      (λ q. (v.0, v.1, put-Registered i id s rest h v.2))

erase-Registered : (n id : ℕ) (l : List (ℕ × Session)) → Registered n l → Registered n (erase id l)
unfolding erase
erase-Registered n id [] v = tt
erase-Registered n id ((i, t) ∷ rest) v =
    if_cases (Registered n) (i == id) _ _ (λ q. Registered-le i n rest (omega arith) v.2)
      (λ q. (v.0, v.1, erase-Registered i id rest v.2))

finish-ComesBack : (pending : Bool) (v : JsValue) → ComesBack (finish pending v)
finish-ComesBack true v = tt
finish-ComesBack false v = tt

report-ComesBack : (cb ok : Bool) → ComesBack (report cb ok)
report-ComesBack true ok = tt
report-ComesBack false ok = tt

not_found-ComesBack : (cb : Bool) → ComesBack (not_found cb)
not_found-ComesBack true = tt
not_found-ComesBack false = tt

missing-ComesBack : (pending cb : Bool) → ComesBack (if pending then thrown else not_found cb)
missing-ComesBack true cb = tt
missing-ComesBack false cb = not_found-ComesBack cb

abbrev pub Kept : Sessions → Type 0
Kept r = Registered r.next_session_id r.active

-- What a call keeps to.
record Good (x : Sessions × Outcome) : Type 0 where
  kept : Kept x.0
  back : ComesBack x.1

module _ (r : Sessions) (v : Kept r) where
  same : (o : Outcome) → ComesBack o → Good (r, o)
  same o b = record { kept = v; back = b }

  created_with-Good :
      (pending : Bool) (mountpoint : JsValue) (o : Initialization) (x : Reply (Bool × Session))
      → initialize false new_session o ≡ x
      → Good (created_with r pending mountpoint x)
  unfolding created_with
  created_with-Good pending mountpoint o (replied (true, s)) e = record {
    kept = (omega arith, initialize-Live o s e, v);
    back = finish-ComesBack pending _;
  }
  created_with-Good pending mountpoint o (replied (false, s)) e = record {
    kept = Registered-le r.next_session_id _ r.active (omega arith) v;
    back = tt;
  }
  created_with-Good pending mountpoint o relocks e = record {
    kept = Registered-le r.next_session_id _ r.active (omega arith) v;
    back = tt;
  }
  created_with-Good pending mountpoint o terminates e = record {
    kept = Registered-le r.next_session_id _ r.active (omega arith) v;
    back = tt;
  }

  create_session-Good : (args : List JsValue) (o : Initialization) → Good (create_session r args o)
  unfolding create_session
  create_session-Good [] o = same thrown tt
  create_session-Good (options ∷ rest) o =
      if_cases Good (not (is_object options)) _ _ (λ q. same thrown tt)
        (λ q.
          elim (get_field "mountpoint" options)
            as (λ x. Good (elim x [
              | none ↦ (r, thrown)
              | some m ↦
                  created_with r (session_options options).1 m (initialize false new_session o)
            ])) [
              | none ↦ same thrown tt
              | some m ↦ created_with-Good (session_options options).1 m o _ refl
            ])

  destroy_found-Good : (id : ℕ × Bool) (found : Option Session) → Good (destroy_found r id found)
  unfolding destroy_found
  destroy_found-Good id none = same _ (finish-ComesBack id.1 _)
  destroy_found-Good id (some s) = record {
    kept = erase-Registered r.next_session_id id.0 r.active v;
    back = finish-ComesBack id.1 _;
  }

  destroy_session-Good : (args : List JsValue) → Good (destroy_session r args)
  unfolding destroy_session
  destroy_session-Good [] = same thrown tt
  destroy_session-Good (handle ∷ rest) =
      elim (get_field "id" handle)
        as (λ x. Good (elim x [
          | none ↦ (r, thrown)
          | some i ↦ destroy_found r (cast_id_of i) (find (cast_id_of i).0 r.active)
        ])) [ none ↦ same thrown tt | some i ↦ destroy_found-Good (cast_id_of i) _ ]

  mount_found-Good :
      (id : ℕ × Bool) (cb : Bool) (o : Initialization) (mount_ok : Bool) (found : Option Session)
      → find id.0 r.active ≡ found
      → Good (mount_found r id cb o mount_ok found)
  unfolding mount_found mount_replied
  mount_found-Good id cb o mount_ok none e = same _ (missing-ComesBack id.1 cb)
  mount_found-Good id cb o mount_ok (some s) e =
      let live = find-Live r.next_session_id id.0 r.active s v e in
      let (ok, s', replies, live') = mount-Live s o mount_ok live in
      rw replies record {
        kept = put-Registered r.next_session_id id.0 s' r.active live' v;
        back = report-ComesBack cb ok;
      }

  mount_call-Good :
      (args : List JsValue) (o : Initialization) (mount_ok : Bool)
      → Good (mount_call r args o mount_ok)
  unfolding mount_call
  mount_call-Good [] o mount_ok = same thrown tt
  mount_call-Good (handle ∷ rest) o mount_ok =
      if_cases Good (not (is_object handle)) _ _ (λ q. same thrown tt)
        (λ q. mount_found-Good (id_of (get "id" handle)) (has_callback rest) o mount_ok _ refl)

  unmount_found-Good :
      (id : ℕ) (cb : Bool) (found : Option Session)
      → find id r.active ≡ found
      → Good (unmount_found r id cb found)
  unfolding unmount_found
  unmount_found-Good id cb none e = same _ (not_found-ComesBack cb)
  unmount_found-Good id cb (some s) e =
      let live = find-Live r.next_session_id id r.active s v e in
      record {
        kept = put-Registered r.next_session_id id _ r.active (unmount-Live s live) v;
        back = report-ComesBack cb _;
      }

  unmount_call-Good : (args : List JsValue) → Good (unmount_call r args)
  unfolding unmount_call
  unmount_call-Good [] = same thrown tt
  unmount_call-Good (handle ∷ rest) =
      if_cases Good (not (is_object handle)) _ _ (λ q. same thrown tt)
        (λ q.
          if_cases Good (not (is_number (get "id" handle))) _ _
            (λ q. same _ (not_found-ComesBack (has_callback rest)))
            (λ q. unmount_found-Good (id_of (get "id" handle)).0 (has_callback rest) _ refl))

-- A call of JavaScript, with its arguments and how initialization and libfuse's mount go.
pub data Call : Type 0 where
  creates : List JsValue → Initialization → Call
  destroys unmounts : List JsValue → Call
  mounts : List JsValue → Initialization → Bool → Call

abbrev pub call : Sessions → Call → Sessions × Outcome
call r (creates args o) = create_session r args o
call r (destroys args) = destroy_session r args
call r (unmounts args) = unmount_call r args
call r (mounts args o mount_ok) = mount_call r args o mount_ok

call-Good : (r : Sessions) (c : Call) → Kept r → Good (call r c)
call-Good r (creates args o) v = create_session-Good r v args o
call-Good r (destroys args) v = destroy_session-Good r v args
call-Good r (unmounts args) v = unmount_call-Good r v args
call-Good r (mounts args o mount_ok) v = mount_call-Good r v args o mount_ok

abbrev pub calls : Sessions → List Call → Sessions × List Outcome
calls r [] = (r, [])
calls r (c ∷ cs) = let x = call r c in let y = calls x.0 cs in (y.0, x.1 ∷ y.1)

calls-Kept :
    (r : Sessions) (cs : List Call) → Kept r → Kept (calls r cs).0 × All ComesBack (calls r cs).1
calls-Kept r [] v = (v, tt)
calls-Kept r (c ∷ cs) v =
    let good = call-Good r c v in
    let rest = calls-Kept (call r c).0 cs good.kept in (rest.0, (good.back, rest.1))

-- After any calls of CreateSession, Mount, Unmount and DestroySession by JavaScript, the ids of the
-- sessions are distinct and below the next one, and each session is initialized or mounted with what
-- belongs to that. So each of the calls returns, where a join of the loop's thread does:
-- none locks a mutex twice or ends the process.
pub calls-ComesBack :
    (cs : List Call) → Kept (calls no_sessions cs).0 × All ComesBack (calls no_sessions cs).1
calls-ComesBack cs = calls-Kept no_sessions cs tt
