-- ===== src/CloudFront/Bind/Managed.antt =====
-- internal/cloudfront/bind.go: every binding is to a managed origin.
use Prim.Native.Char.{Char}
use v2ray_platform.Base.{String, Bool, true, not, ◌&&◌, List, [], ◌∷◌, ◌==◌, if◌then◌else◌}
use v2ray_platform.Base.Text.{is_space}
use v2ray_platform.Domain.{Node, CloudFrontBinding}

has_no_space : String → Bool
has_no_space String.[] = true
has_no_space (String.◌∷◌ c s) = not (is_space c) && has_no_space s

-- the nodes that can be reached by a route
unfoldable pub routed : List Node → List Node
routed [] = []
routed (node ∷ rest) =
    let nodes = routed rest in if node.route_key == "" then nodes else node ∷ nodes

abbrev pub route_of : Node → String × String
route_of node = (node.id, node.route_key)

abbrev pub route_of_binding : CloudFrontBinding → String × String
route_of_binding b = (b.node_id, b.route_key)
