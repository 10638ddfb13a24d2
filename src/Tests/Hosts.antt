-- ===== src/Tests/Hosts.antt =====
-- Runs of the model, and the theorem at those inputs: the hosts of theaters.
use Prim.Native.String.{String}
use boxoffice.Common.{◌≡◌, refl, ◌↔◌, true, false, none, some, [], ◌∷◌, ◌++◌}
use boxoffice.Common.Text.{codes, lower}
use boxoffice.Common.Results.{ok, err}
use boxoffice.Tenants.{
  Tenant, Settings, WebRequest, NotFound, before_colon, resolve, dev_override_subdomain,
  subdomain_from_host,
}
use boxoffice.Tenants.Address.{IsServed, resolve_iff}

abbrev production : Settings
production = record {
  debug = false;
  base_domain = codes "Boxo.show";
  reserved_subdomains = codes "www" ∷ codes "beta" ∷ [];
}

abbrev roxy : Tenant
roxy = record {
  id = 7;
  subdomain = codes "roxy";
  timezone = codes "America/Chicago";
  is_active = true;
}

abbrev closed : Tenant
closed = record { id = 8; subdomain = codes "old"; timezone = []; is_active = false }

abbrev visit : String → WebRequest
visit host = record { host = codes host; tenant_param = some (codes "old"); tenant_header = none }

closed_is_404 :
    resolve production (roxy ∷ closed ∷ []) (visit "old.boxo.show") ≡ err NotFound.inactive_tenant
unfolding resolve dev_override_subdomain subdomain_from_host
closed_is_404 = refl

www_is_platform : resolve production (roxy ∷ closed ∷ []) (visit "www.boxo.show") ≡ ok none
unfolding resolve dev_override_subdomain subdomain_from_host
www_is_platform = refl

resolve_iff_example :
    (resolve production (roxy ∷ closed ∷ []) (visit "ROXY.boxo.show:8000") ≡ ok (some roxy)) ↔ (
      (lower (before_colon (codes "ROXY.boxo.show:8000"))
        ≡ codes "roxy" ++ (codes "." ++ lower (codes "Boxo.show")))
      × IsServed production (roxy ∷ closed ∷ []) roxy)
resolve_iff_example =
    resolve_iff production (roxy ∷ closed ∷ []) (visit "ROXY.boxo.show:8000") roxy refl

roxy-IsServed :
    (lower (before_colon (codes "ROXY.boxo.show:8000"))
      ≡ codes "roxy" ++ (codes "." ++ lower (codes "Boxo.show")))
    × IsServed production (roxy ∷ closed ∷ []) roxy
unfolding IsServed
roxy-IsServed = (refl, (refl, refl, refl, refl))
