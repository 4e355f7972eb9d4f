-- ===== src/Server/Access/Tests.antt =====
-- Tests of the networks.
use fwknop_go.Base.{
  ◌≡◌, refl, false, true, inl, inr, All, [], ◌∷◌, ◌++◌, arith, Bytes, List, map, replicate,
}
use fwknop_go.Server.Access.{AccessStanza, v4_in_v6_prefix, short, net_contains, match_source}
use fwknop_go.Server.Access.Matching.{
  byte_mask, Prefix, IsPrefix, shortened, as_net, in_some, match_source-prefixes,
}
use fwknop_go.Server.Fixtures.{test_stanza}

-- 10.1.0.0/16, the networks of "ANY", and ::ffff:10.0.0.0/104.
abbrev test_prefixes : List Prefix
test_prefixes =
    record { address = 10 ∷ 1 ∷ 0 ∷ 0 ∷ []; ones = 2; zeros = 2 }
    ∷ record { address = replicate 4 0; ones = 0; zeros = 4 }
    ∷ record { address = replicate 16 0; ones = 0; zeros = 16 }
    ∷ record { address = v4_in_v6_prefix ++ (10 ∷ 0 ∷ 0 ∷ 0 ∷ []); ones = 13; zeros = 3 }
    ∷ []

test_prefixes-ArePrefixes : All IsPrefix test_prefixes
test_prefixes-ArePrefixes = (
  record { fits = refl; bytes = omega arith; size = inl refl },
  (
    record { fits = refl; bytes = omega arith; size = inl refl },
    (
      record { fits = refl; bytes = omega arith; size = inr refl },
      (record { fits = refl; bytes = omega arith; size = inr refl }, tt),
    ),
  ),
)

abbrev prefix_stanza : AccessStanza
prefix_stanza = record test_stanza { source_nets = map as_net test_prefixes }

-- 10.1.2.3 in 16 bytes.
abbrev test_address : Bytes
test_address = v4_in_v6_prefix ++ (10 ∷ 1 ∷ 2 ∷ 3 ∷ [])

match_source-prefixes_example :
    match_source prefix_stanza test_address
    ≡ in_some (map shortened test_prefixes) (short test_address)
match_source-prefixes_example =
    match_source-prefixes prefix_stanza test_prefixes test_address refl test_prefixes-ArePrefixes
      (omega arith)

address_outside :
    net_contains (record { ip = 10 ∷ 1 ∷ 0 ∷ 0 ∷ []; mask = byte_mask 2 2 }) (10 ∷ 2 ∷ 2 ∷ 3 ∷ [])
    ≡ false
unfolding net_contains
address_outside = refl

mapped_inside :
    net_contains
      (record { ip = v4_in_v6_prefix ++ (10 ∷ 0 ∷ 0 ∷ 0 ∷ []); mask = byte_mask 13 3 })
      (10 ∷ 2 ∷ 2 ∷ 3 ∷ [])
    ≡ true
unfolding net_contains
mapped_inside = refl
