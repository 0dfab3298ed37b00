-- ===== src/Sensor/Collectors/Network.antt =====
-- The connections that the sensor remembers from poll to poll (edysor_sensor.py, collect_network).
use Prim.Native.Nat.{◌≤◌}
use ai_soc.Prelude.{
  String, ℕ, ◌+◌, ◌≡◌, refl, Bool, true, false, ◌||◌, Option, none, some, List, [], ◌∷◌, ◌++◌, ltb,
  length, length-append, All, All-append, All-mono, arith,
}
use ai_soc.Json.{Value}
use ai_soc.Python.{Python}
use ai_soc.Sensor.Collectors.{ConnKey, CollectorState, new_state, Readings, Connection}
use ai_soc.Sensor.Collectors.Connections.{
  seen, remember, max_conns, conn_key, remote_of, take_new, take_conn, take_far, take_conns,
  collect_network,
}
use ai_soc.Sensor.Collectors.Keys.{
  Distinct, All-seen, same_truth, remember_bounded, seen_first, seen-append, seen_more,
}

module _ (py : Python) where
  abbrev far_key : Option (String × ℕ) → Connection → List ConnKey
  far_key none c = []
  far_key (some far) c = conn_key py c ∷ []

  -- the keys of the connections that have a far end worth a look
  abbrev pub far_keys : List Connection → List ConnKey
  far_keys [] = []
  far_keys (c ∷ cs) = far_key (remote_of py (c.raddr)) c ++ far_keys cs

  abbrev pub all_far_keys : List (Option (List Connection)) → List ConnKey
  all_far_keys [] = []
  all_far_keys (none ∷ answers) = all_far_keys answers
  all_far_keys (some conns ∷ answers) = far_keys conns ++ all_far_keys answers

module _ (py : Python) (r : Readings) where
  -- the poll of the network at every cycle
  unfoldable pub polls :
      CollectorState → List (Option (List Connection)) → List Value × CollectorState
  unfolding collect_network
  polls state [] = ([], state)
  polls state (answer ∷ answers) =
      let (events, state') = collect_network py r state answer in
      let (more, last) = polls state' answers in (events ++ more, last)

module _ (py : Python) (r : Readings) where
  -- What taking in connections does to the remembered keys, while there is room.
  pub record Noted (ks : List ConnKey) (result : List Value × CollectorState) (keys : List ConnKey)
      : Type 0 where
    pub grown : length (result.1.conns) ≡ length ks + length (result.0)
    pub distinct : Distinct (result.1.conns)
    pub kept : (k : ConnKey) → seen k ks ≡ true → seen k (result.1.conns) ≡ true
    pub origin : (k : ConnKey) → seen k (result.1.conns) ≡ true → (seen k ks || seen k keys) ≡ true
    pub noted : All (λ k. seen k (result.1.conns) ≡ true) keys

  abbrev HasRoom : List ConnKey → List Value × CollectorState → Type 0
  HasRoom ks result = length ks + length (result.0) ≤ max_conns

  take_new-Noted :
      (known : Bool) (state : CollectorState) (c : Connection) (far : String × ℕ)
      → seen (conn_key py c) (state.conns) ≡ known
      → Distinct (state.conns)
      → HasRoom (state.conns) (take_new py r known state c far)
      → Noted (state.conns) (take_new py r known state c far) (conn_key py c ∷ [])
  unfolding take_new remember
  take_new-Noted true state c far h d room = record {
    grown = omega arith;
    distinct = d;
    kept = λ k s. s;
    origin = λ k s. ground (arith, s);
    noted = (h, tt);
  }
  take_new-Noted false state c far h d room =
      let fits : ltb max_conns (length (conn_key py c ∷ state.conns)) ≡ false =
        ground (arith, room) in
      rw fits (record {
        grown = omega arith;
        distinct = (h, d);
        kept = λ k s. seen_more k (conn_key py c) (state.conns) s;
        origin = λ k s. ground (arith, s);
        noted = (seen_first (conn_key py c) (state.conns), tt);
      })

  take_far-Noted :
      (far : Option (String × ℕ)) (state : CollectorState) (c : Connection)
      → Distinct (state.conns)
      → HasRoom (state.conns) (take_far py r far state c)
      → Noted (state.conns) (take_far py r far state c) (far_key py far c)
  unfolding take_far
  take_far-Noted none state c d room = record {
    grown = omega arith;
    distinct = d;
    kept = λ k s. s;
    origin = λ k s. ground (arith, s);
    noted = tt;
  }
  take_far-Noted (some far) state c d room = take_new-Noted _ state c far refl d room

  chain :
      (ks : List ConnKey) (events more : List Value) (state' last : CollectorState)
      (keys rest : List ConnKey)
      → Noted ks (events, state') keys
      → Noted (state'.conns) (more, last) rest
      → Noted ks (events ++ more, last) (keys ++ rest)
  chain ks events more state' last keys rest m n = record {
    grown = omega (arith, m.grown, n.grown, length-append events more);
    distinct = n.distinct;
    kept = λ k s. n.kept k (m.kept k s);
    origin = λ k s. ground (arith, m.origin k, n.origin k s, seen-append k keys rest);
    noted = All-append _ keys rest (All-mono _ _ (λ k s. n.kept k s) keys m.noted) n.noted;
  }

  take_conns-Noted :
      (cs : List Connection) (state : CollectorState)
      → Distinct (state.conns)
      → HasRoom (state.conns) (take_conns py r state cs)
      → Noted (state.conns) (take_conns py r state cs) (far_keys py cs)
  unfolding take_conns take_conn
  take_conns-Noted [] state d room = record {
    grown = omega arith;
    distinct = d;
    kept = λ k s. s;
    origin = λ k s. ground (arith, s);
    noted = tt;
  }
  take_conns-Noted (c ∷ cs) state d room =
      let far = remote_of py (c.raddr) in
      let one = take_far py r far state c in
      let more = take_conns py r (one.1) cs in
      let bounds = length-append (one.0) (more.0) in
      let first = take_far-Noted far state c d (omega (arith, room, bounds)) in
      chain (state.conns) (one.0) (more.0) (one.1) (more.1) (far_key py far c) (far_keys py cs)
        first
        (take_conns-Noted cs (one.1) first.distinct (omega (arith, room, bounds, first.grown)))

  polls-Noted :
      (answers : List (Option (List Connection))) (state : CollectorState)
      → Distinct (state.conns)
      → HasRoom (state.conns) (polls py r state answers)
      → Noted (state.conns) (polls py r state answers) (all_far_keys py answers)
  unfolding polls collect_network
  polls-Noted [] state d room = record {
    grown = omega arith;
    distinct = d;
    kept = λ k s. s;
    origin = λ k s. ground (arith, s);
    noted = tt;
  }
  polls-Noted (none ∷ answers) state d room = polls-Noted answers state d room
  polls-Noted (some cs ∷ answers) state d room =
      let one = take_conns py r state cs in
      let more = polls py r (one.1) answers in
      let bounds = length-append (one.0) (more.0) in
      let first = take_conns-Noted cs state d (omega (arith, room, bounds)) in
      chain (state.conns) (one.0) (more.0) (one.1) (more.1) (far_keys py cs)
        (all_far_keys py answers) first
        (polls-Noted answers (one.1) first.distinct (omega (arith, room, bounds, first.grown)))

  take_conns-bounded :
      (cs : List Connection) (state : CollectorState)
      → length (state.conns) ≤ max_conns
      → length ((take_conns py r state cs).1.conns) ≤ max_conns
  unfolding take_conns take_conn take_far take_new
  take_conns-bounded [] state h = h
  take_conns-bounded (c ∷ cs) state h =
      take_conns-bounded cs _ (far_bounded (remote_of py (c.raddr)))
    where
      new_bounded :
          (known : Bool) (far : String × ℕ)
          → length ((take_new py r known state c far).1.conns) ≤ max_conns
      new_bounded true far = h
      new_bounded false far = remember_bounded (conn_key py c) (state.conns)

      far_bounded :
          (far : Option (String × ℕ)) → length ((take_far py r far state c).1.conns) ≤ max_conns
      far_bounded none = h
      far_bounded (some far) = new_bounded _ far

  pub polls-bounded :
      (answers : List (Option (List Connection))) (state : CollectorState)
      → length (state.conns) ≤ max_conns
      → length ((polls py r state answers).1.conns) ≤ max_conns
  unfolding polls collect_network
  polls-bounded [] state h = h
  polls-bounded (none ∷ answers) state h = polls-bounded answers state h
  polls-bounded (some cs ∷ answers) state h =
      polls-bounded answers _ (take_conns-bounded cs state h)

  -- As long as a sensor that has just started reported no more connections than its set may hold, it
  -- reported each once: over all its polls there are as many events as there are different keys,
  -- and these are exactly the keys of the connections with a far end that is not a loopback.
  pub polls_once :
      (answers : List (Option (List Connection)))
      → length ((polls py r new_state answers).0) ≤ max_conns
      → Distinct ((polls py r new_state answers).1.conns)
        × (length ((polls py r new_state answers).1.conns)
            ≡ length ((polls py r new_state answers).0))
        × ((k : ConnKey)
            → seen k ((polls py r new_state answers).1.conns) ≡ seen k (all_far_keys py answers))
  polls_once answers room =
      let n = polls-Noted answers new_state tt (omega (arith, room)) in
      (
        n.distinct,
        omega (arith, n.grown),
        λ k. same_truth _ _ (n.origin k) (λ h. All-seen _ k (all_far_keys py answers) n.noted h),
      )
