-- ===== src/Tests/DeviceTests.antt =====
-- Addresses and devices at concrete inputs.
use mangos_v.Prelude.{◌<◌, ◌≡◌, refl, true, false, none, some, List, [], ◌∷◌, arith}
use mangos_v.Prelude.Bytes.{Bytes, Slice}
use mangos_v.Prelude.Strings.{has_prefix, index, equal}
use mangos_v.Prelude.Int.{pos}
use mangos_v.Prelude.Table.{lookup}
use mangos_v.Chan.{make}
use mangos_v.Protocol.{ProtocolSocket}
use mangos_v.Errors.{ok, err, bad_option}
use mangos_v.Options.{OptionName, Value}
use mangos_v.Peers.{rep, req}
use mangos_v.Req.{Req}
use mangos_v.Rep.{Rep}
use mangos_v.Core.{Socket, new_socket}
use mangos_v.Core.Pipes.Instances.{rep_operations}
use mangos_v.Core.Requests.{req_operations}
use mangos_v.Route.Exchange.{Answers, exchange}
use mangos_v.Device.{both, device, started}
use mangos_v.Device.Plugging.{device-exchange}
use mangos_v.Core.Addresses.{
  Sites, Transport, add_transport, by_scheme, get_transport, mark, store_at, strip_scheme,
  listen_options, dial_options,
}
use mangos_v.Core.Addresses.Schemes.{added}
use mangos_v.Core.Addresses.Active.{listens, set_options, started-keeps_queues}
use mangos_v.Options
use mangos_v.Core
use mangos_v.Core.Addresses

abbrev sock0 : ProtocolSocket
sock0 = record { recverr = none; senderr = none }

-- The transport "ab", whose dialers and listeners are the addresses.
abbrev plain : Transport Bytes Bytes
plain = record {
  scheme = 97 ∷ 98 ∷ [];
  make_dialer = λ addr. ok addr;
  make_listener = λ addr. ok addr;
  dialer_option = λ name v d. err bad_option;
  listener_option = λ name v l. err bad_option;
  bind = λ l. ok l;
}

-- "ab://9".
abbrev somewhere : Bytes
somewhere = 97 ∷ 98 ∷ 58 ∷ 47 ∷ 47 ∷ 57 ∷ []

found : Addresses.get_transport somewhere (added (plain ∷ [])) ≡ some plain
unfolding Addresses.get_transport add_transport store_at by_scheme index has_prefix equal
found = refl

abbrev reply_socket : Socket Rep
reply_socket = Core.new_socket (record {
  sock = sock0;
  eps = (7, make 2) ∷ [];
  backtrace = Slice.nil;
  raw = false;
  ttl = 8;
  w = record { cnt = 0 };
})

abbrev request_socket : Socket Req
request_socket = Core.new_socket (record {
  sock = sock0;
  eps = [];
  raw = false;
  retry = pos 60;
  nextid = 5;
  waker = none;
  w = record { cnt = 0 };
  started = false;
  reqmsg = none;
  reqid = 0;
})

-- A call of `Dial` before the options change.
abbrev site : Sites Req Bytes Bytes
site = record { socket = request_socket; transports = added (plain ∷ []); listeners = [] }

abbrev settings : List (OptionName × Value)
settings = (Options.write_q_len, Value.int (pos 1)) ∷ (Options.linger, Value.bool true) ∷ []

listened : (Addresses.listen_options somewhere [] site).1 ≡ none
unfolding Addresses.listen_options add_transport store_at by_scheme Addresses.get_transport
    Addresses.new_listener Addresses.start_listening Addresses.listen Addresses.take_options index
    has_prefix equal
listened = refl

started-keeps_queues_example :
    let w' = (Addresses.listen_options somewhere [] site).0 in
    let s = set_options req_operations settings w'.socket in
    (s.active ≡ true)
    × (s.uwq ≡ request_socket.uwq)
    × (s.urq ≡ request_socket.urq)
    × (s.uwq_len ≡ request_socket.uwq_len)
    × (s.urq_len ≡ request_socket.urq_len)
started-keeps_queues_example =
    started-keeps_queues req_operations site (Addresses.listen_options somewhere [] site).0 settings
      (listens somewhere [] listened)

known : lookup 7 reply_socket.proto.eps ≡ some (make 2)
unfolding Core.new_socket lookup
known = refl

near : 0 < reply_socket.proto.ttl
unfolding Core.new_socket
near = omega arith

server-Answers : Answers reply_socket.proto 7 1
unfolding Core.new_socket lookup
server-Answers = record {
  cooked = refl;
  pipe_id = omega arith;
  near = omega arith;
  queue = make 2;
  known = refl;
  is_open = unfold make in refl;
  room = unfold make in refl;
}

device-exchange_example :
    (front : Socket Rep) × (back : Socket Req) × (device rep_operations req_operations rep req
        (both reply_socket request_socket)
      ≡ (both front back, started))
    × (exchange request_socket.proto
          (record { front = front.proto; back = back.proto; pipe = 7 } ∷ [])
          reply_socket.proto
          7
          (1 ∷ [])
          (2 ∷ [])
        ≡ some (1 ∷ [], 2 ∷ []))
device-exchange_example =
    device-exchange request_socket.proto reply_socket request_socket reply_socket.proto 7 7 (make 2)
      (1 ∷ []) (2 ∷ []) (unfold Core.new_socket in refl) (omega arith) known (unfold make in refl)
      (unfold make in refl) near server-Answers
