-- ===== src/Tests/GoPaths.antt =====
-- pkg/router/router.go: what Go makes of some paths.
use cs.Prelude.{◌≡◌, refl}
use cs.Router.GoPaths.{
  elements_of, prepend, is_rooted, parent, resolve, join_elements, relative, clean_path, join_paths,
}

clean_dots : clean_path "/a//b/./c/../d/" ≡ "/a/b/d"
unfolding elements_of prepend is_rooted parent resolve join_elements relative clean_path
clean_dots = refl

join_slash : join_paths "/api/v1" "/user/" ≡ "/api/v1/user"
unfolding elements_of prepend is_rooted parent resolve join_elements relative clean_path join_paths
join_slash = refl

clean_relative : clean_path "../../a/../../x" ≡ "../../../x"
unfolding elements_of prepend is_rooted parent resolve join_elements relative clean_path join_paths
clean_relative = refl

clean_root : clean_path "/../a/.." ≡ "/"
unfolding elements_of prepend is_rooted parent resolve join_elements relative clean_path join_paths
clean_root = refl

clean_empty : clean_path "" ≡ "."
unfolding elements_of prepend is_rooted parent resolve join_elements relative clean_path join_paths
clean_empty = refl
