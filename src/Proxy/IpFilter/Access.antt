-- ===== src/Proxy/IpFilter/Access.antt =====
-- Who passes the filter, in terms of the entries as they were configured.
use routerbot.Base.{
  ◌≡◌, refl, String, Option, none, some, Bool, true, false, not, ◌&&◌, ◌||◌, List, [], ◌∷◌, arith,
  any, if◌then◌else◌, is_none,
}
use routerbot.Proxy.IpFilter.{
  Addresses, Request, forbidden, passed_on, nonempty, parse_networks, ip_in_networks, get_client_ip,
  init, dispatch,
}

module _ {Address Network : Type 0} (addresses : Addresses Address Network) where
  open addresses use {ip_network, ip_address, within, strip}

  -- An entry that parses.
  abbrev pub valid : String → Bool
  valid entry = not (is_none (ip_network (strip entry)))

  abbrev covers_address : Option Address → Option Network → Bool
  covers_address (some addr) (some net) = within addr net
  covers_address (some addr) none = false
  covers_address none net = false

  -- An entry that parses as a network in which the address lies, if that parses.
  abbrev pub covers : String → String → Bool
  covers ip entry = covers_address (ip_address ip) (ip_network (strip entry))

  nonempty-parse : (raw : List String) → nonempty (parse_networks addresses raw) ≡ any valid raw
  unfolding parse_networks
  nonempty-parse [] = refl
  nonempty-parse (entry ∷ raw) = ground (arith, nonempty-parse raw)

  in-parse :
      (ip : String) (raw : List String)
      → ip_in_networks addresses ip (parse_networks addresses raw) ≡ any (covers ip) raw
  unfolding parse_networks ip_in_networks
  in-parse ip [] = ground arith
  in-parse ip (entry ∷ raw) = ground (arith, in-parse ip raw)

  any-covers : (ip : String) (raw : List String) → any (covers ip) raw ≡ true → any valid raw ≡ true
  any-covers ip [] h = cc
  any-covers ip (entry ∷ raw) h = ground (arith, any-covers ip raw)

  -- A request passes the filter exactly when no entry of the block list covers its address, and some
  -- entry of the allow list does or none of that list parses; else it is refused. An allow list
  -- of which no entry parses lets through whoever is not blocked, as an empty one does, and an
  -- address that does not parse is covered by nothing.
  pub dispatch-init :
      (allowed_ips blocked_ips : List String) (trust_proxy : Bool) (request : Request)
      → dispatch addresses (init addresses allowed_ips blocked_ips trust_proxy) request ≡ (
          let ip = get_client_ip addresses request trust_proxy in
          (
            ip,
            if not (any (covers ip) blocked_ips)
                  && (any (covers ip) allowed_ips || not (any valid allowed_ips))
                then passed_on
                else forbidden ip,
          ))
  unfolding dispatch init
  dispatch-init allowed_ips blocked_ips trust_proxy request =
      let ip = get_client_ip addresses request trust_proxy in
      ground (
        arith,
        nonempty-parse allowed_ips,
        nonempty-parse blocked_ips,
        in-parse ip allowed_ips,
        in-parse ip blocked_ips,
        any-covers ip allowed_ips,
        any-covers ip blocked_ips,
      )
