-- ===== src/Sensor/Collectors/Connections.antt =====
-- sensor/edysor_sensor.py: the collector of connections.
use ai_soc.Prelude.{
  String, ℕ, Bool, true, false, not, ◌&&◌, Option, none, some, List, [], ◌∷◌, ◌++◌, ◌==◌, str_eq,
  str_append, if◌then◌else◌, any_of, length, ltb,
}
use ai_soc.Json.{Value, null, text, int, pos, end, field}
use ai_soc.Python.{Python}
use ai_soc.Sensor.Events.{text_or_null, number_or_null, sensor_event, hint_for_network}
use ai_soc.Sensor.Collectors.{ConnKey, CollectorState, Readings, Connection, name_of_pid}

abbrev pub max_conns : ℕ
max_conns = 20000

abbrev pub same_pid : Option ℕ → Option ℕ → Bool
same_pid none none = true
same_pid (some p) (some q) = p == q
same_pid _ _ = false

abbrev pub same_key : ConnKey → ConnKey → Bool
same_key a b =
    same_pid (a.pid) (b.pid)
    && (a.kind == b.kind)
    && str_eq (a.near) (b.near)
    && str_eq (a.far) (b.far)
    && str_eq (a.status) (b.status)

abbrev pub seen : ConnKey → List ConnKey → Bool
seen k ks = any_of (same_key k) ks

-- `state.conns.add(key)`, and the set is emptied where it has become too large
unfoldable pub remember : ConnKey → List ConnKey → List ConnKey
remember k ks = if ltb max_conns (length (k ∷ ks)) then [] else k ∷ ks

abbrev ip_of : Option (String × ℕ) → Option String
ip_of none = none
ip_of (some (ip, port)) = some ip

abbrev port_of : Option (String × ℕ) → Option ℕ
port_of none = none
port_of (some (ip, port)) = some port

module _ (py : Python) where
  abbrev end_of : Option (String × ℕ) → String
  end_of none = ""
  end_of (some (ip, port)) = str_append ip (str_append ":" (py.str (int (pos port))))

  unfoldable pub conn_key : Connection → ConnKey
  conn_key c = record {
    pid = c.pid;
    kind = c.kind;
    near = end_of (c.laddr);
    far = end_of (c.raddr);
    status = c.status;
  }

  -- a connection that is worth a look: with a far end that is an address and no loopback
  abbrev pub remote_of : Option (String × ℕ) → Option (String × ℕ)
  remote_of none = none
  remote_of (some (ip, port)) =
      if py.is_address ip && not (py.is_loopback ip) then some (ip, port) else none

  -- SOCK_STREAM and SOCK_DGRAM
  abbrev pub proto_of : ℕ → String
  proto_of kind = if kind == 1 then "tcp" else if kind == 2 then "udp" else py.str (int (pos kind))

module _ (py : Python) (r : Readings) where
  abbrev pub network_event : CollectorState → Connection → String × ℕ → Value
  network_event state c (dst_ip, dst_port) =
      sensor_event (r.now_iso dst_ip) "network" (hint_for_network py dst_ip) (
        field "pid" (number_or_null (c.pid)) (
          field "process_name" (text_or_null (name_of_pid (c.pid) (state.pid_names))) (
            field "src_ip" (text_or_null (ip_of (c.laddr))) (
              field "src_port" (number_or_null (port_of (c.laddr))) (
                field "dst_ip" (text dst_ip) (
                  field "dst_port" (int (pos dst_port)) (
                    field "proto" (text (proto_of py (c.kind))) (
                      field "direction" (text "outbound")
                        (field "bytes_sent" null (field "bytes_recv" null end))))))))))

  unfoldable pub take_new :
      Bool → CollectorState → Connection → String × ℕ → List Value × CollectorState
  unfolding conn_key remember
  take_new known state c far = if known then ([], state) else (
    network_event state c far ∷ [],
    record state { conns = remember (conn_key py c) (state.conns) },
  )

  unfoldable pub take_far :
      Option (String × ℕ) → CollectorState → Connection → List Value × CollectorState
  unfolding take_new
  take_far none state c = ([], state)
  take_far (some far) state c = take_new (seen (conn_key py c) (state.conns)) state c far

  unfoldable pub take_conn : CollectorState → Connection → List Value × CollectorState
  unfolding take_far
  take_conn state c = take_far (remote_of py (c.raddr)) state c

  unfoldable pub take_conns : CollectorState → List Connection → List Value × CollectorState
  take_conns state [] = ([], state)
  take_conns state (c ∷ cs) =
      let (events, state') = take_conn state c in
      let (more, last) = take_conns state' cs in (events ++ more, last)

  unfoldable pub collect_network :
      CollectorState → Option (List Connection) → List Value × CollectorState
  collect_network state none = ([], state)
  collect_network state (some conns) = take_conns state conns
