-- ===== src/Proxy/IpFilter/Examples.antt =====
-- The theorem on the filter, with an allow list that does not parse.
use routerbot.Base.{
  String, ◌≡◌, refl, none, some, false, not, ◌&&◌, ◌||◌, [], ◌∷◌, any, if◌then◌else◌, string_eq,
  ◌==◌,
}
use routerbot.Proxy.IpFilter.{
  Addresses, Request, forbidden, passed_on, get_client_ip, init, dispatch,
}
use routerbot.Proxy.IpFilter.Access.{valid, covers, dispatch-init}

-- Networks of one address, and a text of no form.
abbrev single : Addresses String String
single = record {
  ip_network = λ s. if s == "10.0.0/8" then none else some s;
  ip_address = λ s. some s;
  within = λ a n. a == n;
  strip = λ s. s;
  before_comma = λ s. s;
}

abbrev request : Request
request = record { x_forwarded_for = none; client_host = some "203.0.113.9" }

mistyped : (dispatch single (init single ("10.0.0/8" ∷ []) [] false) request).1 ≡ passed_on
unfolding dispatch init
mistyped = refl

outside :
    (dispatch single (init single ("10.0.0.1" ∷ []) [] false) request).1 ≡ forbidden "203.0.113.9"
unfolding dispatch init
outside = refl

dispatch-init_example :
    dispatch single (init single ("10.0.0/8" ∷ []) ("1.2.3.4" ∷ []) false) request ≡ (
      get_client_ip single request false,
      if not (any (covers single (get_client_ip single request false)) ("1.2.3.4" ∷ []))
            && (any (covers single (get_client_ip single request false)) ("10.0.0/8" ∷ [])
                || not (any (valid single) ("10.0.0/8" ∷ [])))
          then passed_on
          else forbidden (get_client_ip single request false),
    )
dispatch-init_example = dispatch-init single ("10.0.0/8" ∷ []) ("1.2.3.4" ∷ []) false request
