-- ===== src/Channels/Reuse.antt =====
-- Repeated requests for a channel.
use smoldb.Prelude.{
  ◌≡◌, inl, inr, Option, some, ok, arith, lookup, lookup-insert, beq_refl, Option-cases,
  Result-cases,
}
use smoldb.Channels.{TransportChannelPool, get_or_create_channel}
use smoldb.External.{Env}

module _ (env : Env) where
  open env use {Uri, uri_eq, Net, Channel}

  pub channel_at : Uri → TransportChannelPool Uri Channel → Option Channel
  channel_at uri pool = lookup ⦃e = uri_eq⦄ uri pool.uri_to_channel

  module _ (pool pool' : TransportChannelPool Uri Channel) (net net' : Net) (uri : Uri)
      (channel : Channel) where
    kept :
        get_or_create_channel env pool net uri ≡ (ok channel, pool', net')
        → channel_at uri pool' ≡ some channel
    unfolding get_or_create_channel channel_at
    kept e = elim (Option-cases (lookup ⦃e = uri_eq⦄ uri pool.uri_to_channel)) [
      | inr (old, q) ↦ ground arith
      | inl q ↦ elim (Result-cases (env.make_channel net uri).0) [
        | inr (x, v) ↦ absurd (ground arith)
        | inl (opened, v) ↦ ground (
          arith,
          lookup-insert ⦃e = uri_eq⦄ uri uri opened pool.uri_to_channel,
          beq_refl ⦃e = uri_eq⦄ uri,
        )
      ]
    ]

    -- After a channel was opened or found for an address, the next request for that address gives the
    -- same channel without a new connection, and changes neither the pool nor the network.
    pub get_or_create_channel_twice :
        (net'' : Net)
        → get_or_create_channel env pool net uri ≡ (ok channel, pool', net')
        → get_or_create_channel env pool' net'' uri ≡ (ok channel, pool', net'')
    get_or_create_channel_twice net'' e =
        let there = kept e in unfold get_or_create_channel channel_at in ground (arith, there)
