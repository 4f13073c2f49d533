-- ===== src/Surveyor.antt =====
-- protocol/surveyor/surveyor.go: the asking side of surveys. The timer is the duration that it is
-- armed for, or `none` when it is stopped; when it fires, `Recv` fails again.
pub mod Surveys
use mangos_v.Prelude.{
  ℕ, ◌+◌, Bool, true, false, ◌||◌, Option, none, some, [], ltb, ◌==◌, if◌then◌else◌, length, take,
  drop,
}
use mangos_v.Message.{Message, Counted}
use mangos_v.Chan.{Chan, close, close_all, make}
use mangos_v.Options.{bool, int, duration, OptionName, Value, as_bool, as_duration, as_int}
use mangos_v.Protocol.{
  closing, ProtocolSocket, Ready, Received, deliver, panicked, set_recv_error, skip, stop,
}
use mangos_v.Errors.{Error, Result, bad_option, bad_value, err, ok, proto_state}
use mangos_v.Prelude.Table.{Table, delete, insert, lookup}
use mangos_v.Waiter.{Waiter, add}
use mangos_v.Prelude.Bytes.{append, bytes, get_u32, put_u32, set_top, skip4, u32}
use mangos_v.Fan.{everybody, fan_out}
use mangos_v.Prelude.Int.{ltb_ℤ, pos, ℤ}
use mangos_v.Waiter

pub record Surveyor : Type 0 where
  pub sock : ProtocolSocket
  pub peers : Table (Chan Message)
  pub raw : Bool
  pub next_id : ℕ  -- uint32
  pub survey_id : ℕ  -- uint32
  pub survey_time : ℤ
  pub timer : Option ℤ
  pub w : Waiter
  pub ttl : ℤ

-- `defaultSurveyTime`, a second.
abbrev default_survey_time : ℕ
default_survey_time = 1_000_000_000

-- `NewProtocol` and `Init`.
unfoldable pub init : ProtocolSocket → Surveyor
unfolding set_recv_error Waiter.init Waiter.add
init sock = record {
  sock = set_recv_error (some proto_state) sock;
  peers = [];
  raw = false;
  next_id = 0;
  survey_id = 0;
  survey_time = pos default_survey_time;
  timer = none;
  w = Waiter.add Waiter.init;
  ttl = pos 0;
}

-- The timer's function.
unfoldable pub expire : Surveyor → Surveyor
unfolding set_recv_error
expire x = record x { timer = none; sock = set_recv_error (some proto_state) x.sock }

-- `Shutdown` after its waits: the peers that it took, with their queues closed.
unfoldable pub shutdown : Surveyor → Surveyor × Table (Chan Message)
shutdown x = (record x { peers = [] }, close_all x.peers)

-- `sender`: one message of the send queue. The sender's own reference is never released.
unfoldable pub sender : Surveyor → Counted → Surveyor × Counted × Bool
sender x m =
    let f = fan_out everybody m x.peers in (record x { peers = f.peers }, f.message, f.panicked)

-- `(*surveyorP).receiver`: one message.
unfoldable pub receiver : Ready → Message → Received
receiver ready m = if ltb (length m.body) 4 then skip else elim ready [
  | closing ↦ stop
  | _ ↦ deliver (record m { header = append m.header (take 4 m.body); body = drop 4 m.body })
]

unfoldable pub add_endpoint : ℕ → Surveyor → Surveyor
add_endpoint id x = record x { peers = insert id (make 1) x.peers }

unfoldable pub remove_endpoint : ℕ → Surveyor → Surveyor × Option (Chan Message)
remove_endpoint id x = (
  record x { peers = delete id x.peers },
  elim (lookup id x.peers) [ none ↦ none | some q ↦ some (close q) ],
)

-- The timer is set for a positive survey time; otherwise it is left as it is.
unfoldable pub send_hook : Surveyor → Message → Surveyor × Message × Bool
unfolding set_recv_error
send_hook x m =
    let v = set_top x.next_id in
    if x.raw then (x, m, true) else (
      record x {
        survey_id = v;
        next_id = u32 (x.next_id + 1);
        sock = set_recv_error none x.sock;
        timer = if ltb_ℤ (pos 0) x.survey_time then some x.survey_time else x.timer;
      },
      record m { header = append m.header (put_u32 v) },
      true,
    )

unfoldable pub recv_hook : Surveyor → Message → Surveyor × Message × Bool
recv_hook x m =
    if x.raw
    then (x, m, true)
    else if ltb (length (bytes m.header)) 4
    then (x, m, false)
    else if get_u32 (bytes m.header) == x.survey_id
    then (x, record m { header = skip4 m.header }, true)
    else (x, m, false)

-- `x.raw, ok = val.(bool)`: the assignment is made also where the assertion fails.
set_raw : Option Bool → Surveyor → Surveyor × Option Error
set_raw none x = (record x { raw = false }, some bad_value)
set_raw (some true) x =
    (record x { raw = true; timer = none; sock = set_recv_error none x.sock }, none)
set_raw (some false) x =
    (record x { raw = false; sock = set_recv_error (some proto_state) x.sock }, none)

set_survey_time : Option ℤ → Surveyor → Surveyor × Option Error
set_survey_time none x = (record x { survey_time = pos 0 }, some bad_value)
set_survey_time (some d) x = (record x { survey_time = d }, none)

set_ttl : Option ℤ → Surveyor → Surveyor × Option Error
set_ttl none x = (x, some bad_value)
set_ttl (some t) x =
    if ltb_ℤ t (pos 1) || ltb_ℤ (pos 255) t
    then (x, some bad_value)
    else (record x { ttl = t }, none)

unfoldable pub set_option : OptionName → Value → Surveyor → Surveyor × Option Error
unfolding set_raw set_survey_time set_ttl set_recv_error
set_option OptionName.raw v x = set_raw (as_bool v) x
set_option OptionName.survey_time v x = set_survey_time (as_duration v) x
set_option OptionName.ttl v x = set_ttl (as_int v) x
set_option _ v x = (x, some bad_option)

unfoldable pub get_option : OptionName → Surveyor → Result Value
get_option OptionName.raw x = ok (bool x.raw)
get_option OptionName.survey_time x = ok (duration x.survey_time)
get_option OptionName.ttl x = ok (int x.ttl)
get_option _ x = err bad_option
