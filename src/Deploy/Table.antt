-- ===== src/Deploy/Table.antt =====
-- The Admin API as a table of routes: what the scripts rely on, and what their calls leave alone.
-- APISIX is not part of the repository; `filled` adds its defaults to a route that is written.
use ouf_api_gateway.Base.{
  nat_eq, true, false, Option, none, some, String, ◌==◌, string_eq, ◌≡◌, ok, ◌||◌,
}
use ouf_api_gateway.Base.Dict.{Dict}
use ouf_api_gateway.Document.{Value, truthy}
use ouf_api_gateway.Deploy.{Method, get, put, delete, Reply, Admin, route_value, is_written}

pub record IsAdmin {W : Type 0} (admin : Admin W) (table : W → String → Option Value)
    (filled : Value → Value) : Type 0 where
  -- A read changes nothing, and tells what is stored.
  pub get_keeps :
      (id : String) (v : Value) (w : W) (j : String)
      → table (admin.route get id v w).1 j ≡ table w j
  pub get_found :
      (id : String) (v : Value) (w : W) (r : Reply) (found : Value)
      → (admin.route get id v w).0 ≡ some r
      → r.code ≡ 200
      → route_value r.body ≡ ok found
      → table w id ≡ some found
  pub get_missing :
      (id : String) (v : Value) (w : W) (r : Reply)
      → (admin.route get id v w).0 ≡ some r
      → r.code ≡ 404
      → table w id ≡ none
  -- A call touches the one id that it names, also where it fails.
  pub other_keeps :
      (m : Method) (id : String) (v : Value) (w : W) (j : String)
      → (id == j) ≡ false
      → table (admin.route m id v w).1 j ≡ table w j
  -- A write that is answered 200 or 201 is stored with its defaults; 204 and 404 answer no write.
  pub put_stores :
      (id : String) (v : Value) (w : W) (r : Reply)
      → (admin.route put id v w).0 ≡ some r
      → is_written r.code ≡ true
      → table (admin.route put id v w).1 id ≡ some (filled v)
  pub put_answers :
      (id : String) (v : Value) (w : W) (r : Reply)
      → (admin.route put id v w).0 ≡ some r
      → (r.code == 204 || r.code == 404) ≡ false
  -- A deletion that is answered 200, 204 or 404 leaves no route; 201 answers no deletion.
  pub delete_removes :
      (id : String) (v : Value) (w : W) (r : Reply)
      → (admin.route delete id v w).0 ≡ some r
      → (r.code == 200 || r.code == 204 || r.code == 404) ≡ true
      → table (admin.route delete id v w).1 id ≡ none
  pub delete_answers :
      (id : String) (v : Value) (w : W) (r : Reply)
      → (admin.route delete id v w).0 ≡ some r
      → (r.code == 201) ≡ false
  -- A stored route is no empty dict, and has its defaults.
  pub stored : (w : W) (id : String) (v : Value) → table w id ≡ some v → truthy v ≡ true
  pub stored_filled : (w : W) (id : String) (v : Value) → table w id ≡ some v → filled v ≡ v
  pub probe_keeps :
      (path method : String) (v : Value) (w : W) (j : String)
      → table (admin.probe path method v w).1 j ≡ table w j
  pub save_keeps : (d : Dict Value) (w : W) (j : String) → table (admin.save d w).1 j ≡ table w j
