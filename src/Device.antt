-- ===== src/Device.antt =====
-- device.go: a device couples two sockets, or one with itself, in raw mode. Route has the loops of its
-- forwarders.
pub mod Plugging
use mangos_v.Prelude.{true, not, Option, none, some, if◌then◌else◌}
use mangos_v.Core.{Operations, Socket}
use mangos_v.Errors.{closed, Error, bad_proto}
use mangos_v.Options.{OptionName, Value}
use mangos_v.Peers.{Kind, valid_peers}
use mangos_v.Core.Options as Own

-- The result of `Device`: both forwarders run, or there is an error, or a type assertion panics.
pub data Plugged : Type 0 where
  started panics_device : Plugged
  refused_device : Error → Plugged

-- The sockets that are given: two that differ, or one for lack of the other, or none.
pub data Given (S T : Type 0) : Type 0 where
  both : Socket S → Socket T → Given S T
  only_first : Socket S → Given S T
  only_second : Socket T → Given S T
  nobody : Given S T

abbrev pub outcome_of : Own.Outcome → Plugged
outcome_of Own.done = started
outcome_of Own.panicked_option = panics_device
outcome_of (Own.refused e) = refused_device e

module _ {S : Type 0} (P : Operations S) where
  -- `SetOption(OptionRaw, true)`.
  unfoldable pub set_raw : Socket S → Socket S × Plugged
  set_raw s =
      let (s', r) = Own.set_option P OptionName.raw (Value.bool true) s in (s', outcome_of r)

  abbrev pub set_raw_again : Plugged → Socket S → Socket S × Plugged
  set_raw_again started s = set_raw s
  set_raw_again other s = (s, other)

  -- `Device` of a socket and itself.
  unfoldable pub loop_back : Kind → Socket S → Socket S × Plugged
  unfolding set_raw
  loop_back k s =
      let (s', r) = set_raw s in
      if not (valid_peers k k) then (s, refused_device bad_proto) else set_raw_again r s'

module _ {S T : Type 0} (P : Operations S) (Q : Operations T) where
  abbrev pub plug_second : Plugged → Socket S → Socket T → Given S T × Plugged
  plug_second started a b = let (b', r) = set_raw Q b in (both a b', r)
  plug_second other a b = (both a b, other)

  unfoldable pub couple : Kind → Kind → Socket S → Socket T → Given S T × Plugged
  couple k l a b =
      let (a', r) = set_raw P a in
      if not (valid_peers k l) then (both a b, refused_device bad_proto) else plug_second r a' b

  -- `Device` of sockets whose protocols have these numbers.
  unfoldable pub device : Kind → Kind → Given S T → Given S T × Plugged
  unfolding couple loop_back
  device k l (both a b) = couple k l a b
  device k l (only_first a) = let (a', r) = loop_back P k a in (only_first a', r)
  device k l (only_second b) = let (b', r) = loop_back Q l b in (only_second b', r)
  device k l nobody = (nobody, refused_device closed)
