-- ===== src/Materialize/Guards.antt =====
-- The Lua functions that the tools put into a route, as texts. They run in APISIX.
use Prim.Native.String
use ouf_api_gateway.Base.{String, List, [], ◌∷◌, map}

abbrev pub concat : List String → String
concat [] = ""
concat (s ∷ ss) = String.◌++◌ s (concat ss)

-- `",".join(ss)`
abbrev pub joined : List String → String
joined [] = ""
joined (s ∷ []) = s
joined (s ∷ t ∷ ss) = String.◌++◌ s (String.◌++◌ "," (joined (t ∷ ss)))

-- `TRUSTED_HEADERS`
abbrev pub trusted_headers : List String
trusted_headers =
    "X-OUF-Gateway-Verified" ∷ "X-OUF-Service-Principal" ∷ "X-OUF-Principal-ID" ∷ "X-OUF-Tenant-ID"
    ∷ "X-OUF-Actor-Type" ∷ "X-OUF-Authentication-Context-Ref" ∷ "X-OUF-Token-Issuer"
    ∷ "X-OUF-Token-Audience" ∷ "X-OUF-Granted-Scopes" ∷ []

-- `human_guard()`
unfoldable pub human_guard : String
human_guard = concat (
    "return function(conf, ctx) " ∷ "local cjson=require('cjson.safe'); "
    ∷ "local auth=ngx.var.http_authorization; " ∷ "if not auth then return ngx.exit(401) end; "
    ∷ "local token=auth:match('^[Bb]earer%s+(.+)$'); "
    ∷ "if not token then return ngx.exit(401) end; "
    ∷ "local payload=token:match('^[^.]+%.([^.]+)%.[^.]+$'); "
    ∷ "if not payload then return ngx.exit(401) end; "
    ∷ "payload=payload:gsub('-','+'):gsub('_','/'); "
    ∷ "local rem=#payload%4; if rem>0 then payload=payload..string.rep('=',4-rem) end; "
    ∷ "local claims=cjson.decode(ngx.decode_base64(payload) or ''); "
    ∷ "if type(claims)~='table' then return ngx.exit(401) end; "
    ∷ "if claims['ouf_actor_type']~='HUMAN' then return ngx.exit(403) end; " ∷ "end" ∷ [])

-- `lua_quote` is `json.dumps` of a text.
module _ (lua_quote : String → String) where
  -- `trusted_pre_function(headers)`; of the trusted headers, `strip_untrusted_headers()`
  unfoldable pub trusted_pre_function : List String → String
  trusted_pre_function names =
      let headers = joined (map lua_quote names) in
      concat (
        "return function(conf, ctx) " ∷ "local headers={" ∷ headers ∷ "}; "
        ∷ "for _,name in ipairs(headers) do ngx.req.clear_header(name) end " ∷ "end" ∷ [])

  -- `",".join(f"[{lua_quote(v)}]=true" for v in names)`
  abbrev pub allow : List String → String
  allow names = joined (map (λ v. String.◌++◌ "[" (String.◌++◌ (lua_quote v) "]=true")) names)

  -- `workload_guard(allowed_services, allowed_actors)`
  unfoldable pub workload_guard : List String → List String → String
  workload_guard allowed_services allowed_actors =
      let services = allow allowed_services in
      let actors = allow allowed_actors in
      concat (
        "return function(conf, ctx) " ∷ "local cjson=require('cjson.safe'); "
        ∷ "local auth=ngx.var.http_authorization; " ∷ "if not auth then return ngx.exit(401) end; "
        ∷ "local token=auth:match('^[Bb]earer%s+(.+)$'); "
        ∷ "if not token then return ngx.exit(401) end; "
        ∷ "local payload=token:match('^[^.]+%.([^.]+)%.[^.]+$'); "
        ∷ "if not payload then return ngx.exit(401) end; "
        ∷ "payload=payload:gsub('-','+'):gsub('_','/'); "
        ∷ "local rem=#payload%4; if rem>0 then payload=payload..string.rep('=',4-rem) end; "
        ∷ "local decoded=ngx.decode_base64(payload); "
        ∷ "local claims=decoded and cjson.decode(decoded) or nil; "
        ∷ "if type(claims)~='table' then return ngx.exit(401) end; " ∷ "local allowed_services={"
        ∷ services ∷ "}; " ∷ "local allowed_actors={" ∷ actors ∷ "}; "
        ∷ "local actor=claims['ouf_actor_type']; "
        ∷ "if type(actor)~='string' or not allowed_actors[actor] then return ngx.exit(403) end; "
        ∷ "local service=claims['client_id'] or claims['azp']; "
        ∷ "if type(service)~='string' or not allowed_services[service] then return ngx.exit(403) end; "
        ∷ "local required={'sub','tenant_id','acr','iss','scope'}; "
        ∷ "for _,k in ipairs(required) do if claims[k]==nil or tostring(claims[k])=='' then return ngx.exit(401) end end; "
        ∷ "local aud=claims['aud']; if type(aud)=='table' then aud=table.concat(aud,' ') end; "
        ∷ "if aud==nil or tostring(aud)=='' then return ngx.exit(401) end; " ∷ "end" ∷ [])

  -- `trusted_post_function(allowed_actors)`
  unfoldable pub trusted_post_function : List String → String
  trusted_post_function allowed_actors =
      let allowed = allow allowed_actors in
      concat (
        "return function(conf, ctx) " ∷ "local cjson=require('cjson.safe'); "
        ∷ "local auth=ngx.var.http_authorization; " ∷ "if not auth then return ngx.exit(401) end; "
        ∷ "local token=auth:match('^[Bb]earer%s+(.+)$'); "
        ∷ "if not token then return ngx.exit(401) end; "
        ∷ "local payload=token:match('^[^.]+%.([^.]+)%.[^.]+$'); "
        ∷ "if not payload then return ngx.exit(401) end; "
        ∷ "payload=payload:gsub('-','+'):gsub('_','/'); "
        ∷ "local rem=#payload%4; if rem>0 then payload=payload..string.rep('=',4-rem) end; "
        ∷ "local decoded=ngx.decode_base64(payload); "
        ∷ "local claims=decoded and cjson.decode(decoded) or nil; "
        ∷ "if type(claims)~='table' then return ngx.exit(401) end; " ∷ "local allowed={" ∷ allowed
        ∷ "}; " ∷ "local actor=claims['ouf_actor_type']; "
        ∷ "if type(actor)~='string' or not allowed[actor] then return ngx.exit(403) end; "
        ∷ "local required={'sub','tenant_id','acr','iss','scope'}; "
        ∷ "for _,k in ipairs(required) do if claims[k]==nil or tostring(claims[k])=='' then return ngx.exit(401) end end; "
        ∷ "local aud=claims['aud']; if type(aud)=='table' then aud=table.concat(aud,' ') end; "
        ∷ "if aud==nil or tostring(aud)=='' then return ngx.exit(401) end; "
        ∷ "local sp=claims['azp'] or claims['client_id'] or ''; "
        ∷ "ngx.req.set_header('X-OUF-Gateway-Verified','true'); "
        ∷ "ngx.req.set_header('X-OUF-Service-Principal',tostring(sp)); "
        ∷ "ngx.req.set_header('X-OUF-Principal-ID',tostring(claims['sub'])); "
        ∷ "ngx.req.set_header('X-OUF-Tenant-ID',tostring(claims['tenant_id'])); "
        ∷ "ngx.req.set_header('X-OUF-Actor-Type',tostring(actor)); "
        ∷ "ngx.req.set_header('X-OUF-Authentication-Context-Ref',tostring(claims['acr'])); "
        ∷ "ngx.req.set_header('X-OUF-Token-Issuer',tostring(claims['iss'])); "
        ∷ "ngx.req.set_header('X-OUF-Token-Audience',tostring(aud)); "
        ∷ "ngx.req.set_header('X-OUF-Granted-Scopes',tostring(claims['scope'])); "
        ∷ "ngx.req.clear_header('Authorization'); " ∷ "end" ∷ [])
