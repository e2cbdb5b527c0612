-- ===== src/RateLimit.antt =====
-- web_service/rate_limit.py: the keys of the limiter. The limiter and `get_remote_address`, which
-- reads the peer of the connection, are the `slowapi` package's.
use ebook_automation.Common.{
  String, ◌≡◌, sym, ap, ◌∙◌, Bool, false, ◌&&◌, ◌||◌, Option, arith, if◌then◌else◌, is_text,
  is_truthy, text_of,
}

-- What the keys are made of: the peer's host, the `cf-connecting-ip` header and the id in the path.
pub record Request : Type 0 where
  pub client_host : Option String
  pub cf_connecting_ip : Option String
  pub path_id : Option String

pub data Key : Type 0 where
  client reconvert_parent kindle_job : String → Key

-- `client_host in _TRUSTED_PROXY_HOSTS`
unfoldable pub is_trusted_proxy : Option String → Bool
is_trusted_proxy host = is_text host "127.0.0.1" || is_text host "::1"

module _ (get_remote_address : Option String → String) where
  unfoldable pub trusted_client_key : Request → Key
  trusted_client_key r =
      if is_trusted_proxy r.client_host && is_truthy r.cf_connecting_ip
      then client (text_of r.cf_connecting_ip)
      else client (get_remote_address r.client_host)

  unfoldable pub parent_job_id_key : Request → Key
  parent_job_id_key r =
      if is_truthy r.path_id then reconvert_parent (text_of r.path_id) else trusted_client_key r

  unfoldable pub kindle_job_id_key : Request → Key
  kindle_job_id_key r =
      if is_truthy r.path_id then kindle_job (text_of r.path_id) else trusted_client_key r

  direct_key :
      (r : Request)
      → is_trusted_proxy r.client_host ≡ false
      → trusted_client_key r ≡ client (get_remote_address r.client_host)
  unfolding trusted_client_key
  direct_key r direct = ground (arith, direct)

  -- Two requests from one peer that is not the local proxy have the same keys under one path,
  -- whatever their headers: a forged header opens no new bucket.
  pub keys_unforgeable :
      (r s : Request)
      → r.client_host ≡ s.client_host
      → r.path_id ≡ s.path_id
      → is_trusted_proxy r.client_host ≡ false
      → (trusted_client_key r ≡ trusted_client_key s)
        × ((parent_job_id_key r ≡ parent_job_id_key s)
            × (kindle_job_id_key r ≡ kindle_job_id_key s))
  unfolding parent_job_id_key kindle_job_id_key
  keys_unforgeable r s peer path direct =
      let same : trusted_client_key r ≡ trusted_client_key s =
        direct_key r direct
        ∙ ap (λ h. client (get_remote_address h)) peer
        ∙ sym (direct_key s (sym (ap is_trusted_proxy peer) ∙ direct)) in
      (
        same,
        (
          ap (λ o. if is_truthy o then reconvert_parent (text_of o) else trusted_client_key r) path
              ∙ ap (λ k. if is_truthy s.path_id then reconvert_parent (text_of s.path_id) else k)
                  same,
          ap (λ o. if is_truthy o then kindle_job (text_of o) else trusted_client_key r) path
              ∙ ap (λ k. if is_truthy s.path_id then kindle_job (text_of s.path_id) else k) same,
        ),
      )
