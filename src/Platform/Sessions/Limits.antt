-- ===== src/Platform/Sessions/Limits.antt =====
-- The limit on concurrent sessions (session_manager.py).
use ai_soc.Prelude.{
  not, is_none, Option-cases, inl, inr, ℕ, ◌≤◌, ◌<◌, String, ◌≡◌, refl, false, none, some, List, [],
  ◌∷◌, ◌++◌, arith, length, length-append, str_eq, eq_refl, or_else, mem_str, true, suc, leb, sym,
  ap, subst, ◌∙◌, Bool-cases,
}
use ai_soc.Prelude.Assoc.{Assoc, lookup, remove, lookup-insert, lookup-remove}
use ai_soc.Python.{Python}
use ai_soc.Platform.Sessions.{
  Session, SessionManager, limit_of, evict, create_session, get_session, live, list_active_sessions,
  terminate_session,
}

evict-length :
    (limit : ℕ) (sids : List String) (sessions : Assoc Session)
    → 0 < limit
    → length (evict limit sids sessions).0 < limit
unfolding evict
evict-length limit [] sessions h = h
evict-length limit (sid ∷ sids) sessions h =
    ground (arith, evict-length limit sids (remove sid sessions) h)

-- What an eviction does: it takes ids from the front of the list, none where the list is short
-- enough, and ends the sessions of these ids and no other.
pub record Evicted (limit : ℕ) (sids kept : List String) (sessions sessions' : Assoc Session)
    : Type 0 where
  pub gone : List String
  pub oldest : sids ≡ gone ++ kept
  pub ended : (s : String) → mem_str s gone ≡ true → lookup s sessions' ≡ none
  pub others : (s : String) → mem_str s gone ≡ false → lookup s sessions' ≡ lookup s sessions
  pub needed : length sids < limit → gone ≡ []

nothing-Evicted :
    (limit : ℕ) (sids : List String) (sessions : Assoc Session)
    → Evicted limit sids sids sessions sessions
nothing-Evicted limit sids sessions = record {
  gone = [];
  oldest = refl;
  ended = λ s h. cc;
  others = λ s h. refl;
  needed = λ h. refl;
}

evict-Evicted :
    (limit : ℕ) (sids : List String) (sessions : Assoc Session)
    → Evicted limit sids (evict limit sids sessions).0 sessions (evict limit sids sessions).1
unfolding evict
evict-Evicted limit [] sessions = nothing-Evicted limit [] sessions
evict-Evicted limit (sid ∷ sids) sessions = elim (Bool-cases (leb limit (suc (length sids)))) [
  | inr short ↦ rw short (nothing-Evicted limit (sid ∷ sids) sessions)
  | inl full ↦
      let rest = evict-Evicted limit sids (remove sid sessions) in
      rw full (record {
        gone = sid ∷ rest.gone;
        oldest = ap (λ ids. sid ∷ ids) rest.oldest;
        ended = λ s h. elim (Bool-cases (mem_str s rest.gone)) [
          | inl later ↦ rest.ended s later
          | inr now ↦
              rest.others s now ∙ (rw (lookup-remove sid s sessions) (ground (arith, h, now)))
        ];
        others = λ s h.
            rest.others s (ground (arith, h))
            ∙ (rw (lookup-remove sid s sessions) (ground (arith, h)));
        needed = λ h. elim (too_long (length sids) h full) [ ];
      })
]
  where
    too_long : (n : ℕ) → suc n < limit → leb limit (suc n) ≡ true → ⊥
    too_long n h full = ground (arith, h, full)

live-length :
    (sessions : Assoc Session) (sids : List String) → length (live sessions sids) ≤ length sids
unfolding live
live-length sessions [] = omega arith
live-length sessions (sid ∷ sids) = ground (arith, live-length sessions sids)

limit_of-positive : (py : Python) (role : String) → 0 < limit_of py role
unfolding limit_of lookup
limit_of-positive py role = ground arith

listed-length :
    (m : SessionManager) (u : String) (sids : List String)
    → lookup u m.user_sessions ≡ some sids
    → length (list_active_sessions m u) ≤ length sids
unfolding list_active_sessions
listed-length m u sids e = rw e (live-length m.sessions sids)

-- What a login leaves: `before` and `after` are the session ids of the user.
pub record Limited (limit : ℕ) (sid : String) (before after : List String) (m m' : SessionManager)
    : Type 0 where
  pub gone : List String
  pub kept : List String
  pub oldest : before ≡ gone ++ kept
  pub listed : after ≡ kept ++ sid ∷ []
  pub bounded : length after ≤ limit
  pub needed : length before < limit → gone ≡ []
  pub ended : (s : String) → mem_str s gone ≡ true → str_eq sid s ≡ false → get_session m' s ≡ none
  pub others :
      (s : String)
      → mem_str s gone ≡ false
      → str_eq sid s ≡ false
      → get_session m' s ≡ get_session m s

-- the session ids of a user
abbrev pub ids_of : SessionManager → String → List String
ids_of m user_id = or_else (lookup user_id m.user_sessions) []

module _ (py : Python) where
  -- After a login the user has at most as many session ids as the role allows, however many there
  -- were before, so the listed active sessions are no more either: the new id stands behind those
  -- kept of the old ones, and the oldest are given up, none where there was room. A session of an id
  -- given up is not found any more, every other session of any user is found as before, the new one
  -- is found under its id, and the lists of the other users are as they were.
  pub create_session-Limited :
      (now : ℕ) (sid : String) (m : SessionManager)
      (user_id username role tenant ip_address user_agent : String)
      → let out = create_session py now sid m user_id username role tenant ip_address user_agent in
        Limited (limit_of py role) sid (ids_of m user_id) (ids_of out.1 user_id) m out.1
        × (length (list_active_sessions out.1 user_id) ≤ limit_of py role)
        × (get_session out.1 sid ≡ some out.0)
        × ((u : String)
            → str_eq user_id u ≡ false
            → lookup u out.1.user_sessions ≡ lookup u m.user_sessions)
  unfolding create_session list_active_sessions get_session
  create_session-Limited now sid m user_id username role tenant ip_address user_agent =
      let before = ids_of m user_id in
      let limit = limit_of py role in
      let short = evict-length limit before m.sessions (limit_of-positive py role) in
      let evicted = evict-Evicted limit before m.sessions in
      let kept = (evict limit before m.sessions).0 in
      let out = create_session py now sid m user_id username role tenant ip_address user_agent in
      let listed : lookup user_id out.1.user_sessions ≡ some (kept ++ sid ∷ []) =
        rw (lookup-insert user_id user_id (kept ++ sid ∷ []) m.user_sessions, eq_refl user_id)
          refl in
      let bounded : length (kept ++ sid ∷ []) ≤ limit =
        omega (arith, length-append kept (sid ∷ []), short) in
      let found : (s : String)
          → str_eq sid s ≡ false
          → lookup s out.1.sessions ≡ lookup s (evict limit before m.sessions).1 =
        λ s other. rw (lookup-insert sid s out.0 (evict limit before m.sessions).1, other) refl in
      (
        record {
          gone = evicted.gone;
          kept = kept;
          oldest = evicted.oldest;
          listed = ap (λ o. or_else o []) listed;
          bounded = subst (λ o. length (or_else o []) ≤ limit) (sym listed) bounded;
          needed = evicted.needed;
          ended = λ s h other. found s other ∙ evicted.ended s h;
          others = λ s h other. found s other ∙ evicted.others s h;
        },
        omega (arith, listed-length out.1 user_id (kept ++ sid ∷ []) listed, bounded),
        rw (lookup-insert sid sid out.0 (evict limit before m.sessions).1, eq_refl sid) refl,
        λ u other. rw (lookup-insert user_id u (kept ++ sid ∷ []) m.user_sessions, other) refl,
      )

-- Logging out ends a session for good: a known id is answered with true and an unknown one with
-- false and no change; afterwards the id is found no more, and the sessions under every other id
-- are as they were.
pub terminate_session-Ended :
    (m : SessionManager) (sid : String)
    → let out = terminate_session m sid in
      (out.0 ≡ not (is_none (get_session m sid)))
      × (get_session m sid ≡ none → out.1 ≡ m)
      × (get_session out.1 sid ≡ none)
      × ((s : String) → str_eq sid s ≡ false → get_session out.1 s ≡ get_session m s)
unfolding terminate_session get_session
terminate_session-Ended m sid = elim (Option-cases (lookup sid m.sessions)) [
  | inl absent ↦ (
    rw (terminate_session, absent),
    λ e. rw (terminate_session, absent),
    rw (terminate_session, absent) absent,
    λ s other. rw (terminate_session, absent),
  )
  | inr (x, found) ↦ (
    rw (terminate_session, found),
    λ e. cc (e, found),
    rw (terminate_session, found) (rw (lookup-remove sid sid m.sessions, eq_refl sid)),
    λ s other. rw (terminate_session, found) (rw (lookup-remove sid s m.sessions, other)),
  )
]
