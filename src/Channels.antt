-- ===== src/Channels.antt =====
-- channel_service.rs: the addresses of the peers, and the pool of open channels. The pool's two
-- lock scopes are taken as one step.
pub mod Reuse
use smoldb.Prelude.{
  String, List, [], Option, none, some, Result, ok, err, HashMap, lookup, insert, Eq, if◌then◌else◌,
}
use smoldb.Types.{PeerId}
use smoldb.External.{Env}

pub record TransportChannelPool (U C : Type 0) : Type 0 where
  pub uri_to_channel : HashMap U C

pub record ChannelService (U C : Type 0) : Type 0 where
  pub id_to_address : HashMap PeerId U
  pub channel_pool : TransportChannelPool U C

-- `ChannelService::default()`
unfoldable pub default_service : {U C : Type 0} → ChannelService U C
default_service = record { id_to_address = []; channel_pool = record { uri_to_channel = [] } }

-- `ChannelService::new`
unfoldable pub new_service : {U C : Type 0} → HashMap PeerId U → ChannelService U C
new_service addresses = record {
  id_to_address = addresses;
  channel_pool = record { uri_to_channel = [] };
}

module _ (env : Env) where
  open env use {Uri, uri_eq, Net, Channel, make_channel}

  -- An open channel is shared; otherwise one is made and kept.
  unfoldable pub get_or_create_channel :
      TransportChannelPool Uri Channel
      → Net
      → Uri
      → Result String Channel × TransportChannelPool Uri Channel × Net
  get_or_create_channel pool net uri = elim (lookup ⦃e = uri_eq⦄ uri pool.uri_to_channel) [
    | some channel ↦ (ok channel, pool, net)
    | none ↦
        let (made, net') = make_channel net uri in
        elim made [
          | err e ↦ (err e, pool, net')
          | ok channel ↦ (
            ok channel,
            record { uri_to_channel = insert ⦃e = uri_eq⦄ uri channel pool.uri_to_channel },
            net',
          )
        ]
  ]
