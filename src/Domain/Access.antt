-- ===== src/Domain/Access.antt =====
-- internal/domain/types.go: grants, groups, credentials and their views.
use v2ray_platform.Base.{String}
use v2ray_platform.Domain.Identity.{Time}

pub record AccessGrant : Type 0 where
  pub id : String
  pub node_id : String
  pub member_id : String
  pub created_at : Time

pub record NodeGroup : Type 0 where
  pub id : String
  pub name : String
  pub description : String
  pub created_at : Time
  pub updated_at : Time

pub record NodeGroupMembership : Type 0 where
  pub node_id : String
  pub group_id : String
  pub group_name : String
  pub created_at : Time

pub record GroupGrantView : Type 0 where
  pub group_id : String
  pub group_name : String
  pub member_id : String
  pub member_name : String
  pub member_email : String
  pub created_at : Time

pub record GrantView : Type 0 where
  pub id : String
  pub node_id : String
  pub node_name : String
  pub member_id : String
  pub member_name : String
  pub member_email : String
  pub created_at : Time

pub record NodeCredential : Type 0 where
  pub id : String
  pub node_id : String
  pub member_id : String
  pub access_grant_id : String
  pub uuid : String
  pub email : String
  pub created_at : Time
