-- ===== src/Metrics/Tests.antt =====
-- The labels and the events on concrete requests.
use httpc.Prelude.{◌≡◌, refl, Bool, true, false, Option, none, some, map, all}
use httpc.Prelude.Text.{codes, text_eq, split_on}
use httpc.Prelude.Int.{pos}
use httpc.Errors.{Err, sentinel, canceled}
use httpc.Metrics.{
  Request, Response, parameterize_path, template_of, is_uuid, is_sha, is_int, trim_left, trim_right,
  join_with,
}
use httpc.Metrics.Templates.{segments, settled, parameterize_path_lem}

an_id : parameterize_path (codes "/users/42/") ≡ codes "/users/{id}"
unfolding parameterize_path template_of is_uuid is_sha is_int split_on trim_left trim_right
    join_with text_eq
an_id = refl

a_uuid : template_of (codes "6ba7b810-9dad-11d1-80b4-00C04FD430C8") ≡ codes "{id}"
unfolding template_of is_uuid
a_uuid = refl

parameterize_path_lem_example :
    (segments (parameterize_path (codes "//a/7")) ≡ map template_of (segments (codes "//a/7")))
    × ((all settled (segments (parameterize_path (codes "//a/7"))) ≡ true)
        × (parameterize_path (parameterize_path (codes "//a/7"))
            ≡ parameterize_path (codes "//a/7")))
parameterize_path_lem_example = parameterize_path_lem (codes "//a/7")

abbrev request : Request
request = record {
  method = codes "GET";
  url = record {
    scheme = codes "https";
    hostname = codes "a.b";
    port = codes "8443";
    path = codes "/x/1";
  };
  has_body = true;
  content_length = pos 5;
}

abbrev refused : Request → Option Response × Option Err
refused req = (none, some (sentinel canceled))

abbrev never : Err → Bool
never e = false

abbrev nothing : Err → Option Err
nothing e = none
