-- ===== src/Router/Single.antt =====
-- src/router.rs: the runtime with a single proxy that the tests use.
use nyasniproxy.Base.{
  [], ◌∷◌, Option, Bytes, codes, Result, ok, ok_same, ◌>>=◌, ◌≡◌, sym, ap, bind-eq-ok,
}
use nyasniproxy.Proxy.{Url, ProxyConfig, parse}
use nyasniproxy.Router.{Runtime, lookup, get}

abbrev single : ProxyConfig → Runtime
single proxy = record {
  router = record { rules = []; default = record { name = codes "default"; proxy = proxy } ∷ [] };
  hostnames = [];
  fingerprint = 0;
}

-- `Runtime::single_proxy`.
single_proxy : (Bytes → Option Url) → Bytes → Result Runtime
single_proxy parse_url url = do proxy ← parse parse_url url; ok (single proxy)

-- It sends every host through the proxy of the URL.
single_proxy-lookup :
    (parse_url : Bytes → Option Url) (url host : Bytes) {rt : Runtime}
    → single_proxy parse_url url ≡ ok rt
    → (proxy : ProxyConfig) × (parse parse_url url ≡ ok proxy)
      × (lookup rt.router host ≡ record { name = codes "default"; proxy = proxy } ∷ [])
unfolding single_proxy lookup get
single_proxy-lookup parse_url url host e =
    let (proxy, parsed, e1) = bind-eq-ok (parse parse_url url) _ e in
    (proxy, parsed, ap (λ (rt : Runtime). lookup rt.router host) (sym (ok_same e1)))
