-- ===== src/Tenant/Permissions.antt =====
-- The permission names and the role tables of services/tenant/internal/domain/authorization.go.
-- A permission is a string there, so that an unknown one can be asked for; it is a text here.
use gereh.Prelude.{String, List, [], ◌∷◌, string_eq, nat_eq}

abbrev pub Permission : Type 0
Permission = String

abbrev pub permission_tenant_read : Permission
permission_tenant_read = "tenant.read"

abbrev pub permission_tenant_update : Permission
permission_tenant_update = "tenant.update"

abbrev pub permission_tenant_archive : Permission
permission_tenant_archive = "tenant.archive"

abbrev pub permission_member_list : Permission
permission_member_list = "member.list"

abbrev pub permission_member_add : Permission
permission_member_add = "member.add"

abbrev pub permission_member_update_role : Permission
permission_member_update_role = "member.update_role"

abbrev pub permission_member_remove : Permission
permission_member_remove = "member.remove"

abbrev pub permission_entitlement_read : Permission
permission_entitlement_read = "entitlement.read"

abbrev pub permission_company_read : Permission
permission_company_read = "company.read"

abbrev pub permission_company_create : Permission
permission_company_create = "company.create"

abbrev pub permission_company_update : Permission
permission_company_update = "company.update"

abbrev pub permission_company_archive : Permission
permission_company_archive = "company.archive"

abbrev pub permission_agent_read : Permission
permission_agent_read = "agent.read"

abbrev pub permission_agent_create : Permission
permission_agent_create = "agent.create"

abbrev pub permission_agent_update : Permission
permission_agent_update = "agent.update"

abbrev pub permission_agent_delete : Permission
permission_agent_delete = "agent.delete"

abbrev pub permission_agent_hierarchy_manage : Permission
permission_agent_hierarchy_manage = "agent.hierarchy_manage"

abbrev pub permission_agent_lifecycle_manage : Permission
permission_agent_lifecycle_manage = "agent.lifecycle_manage"

abbrev pub permission_work_read : Permission
permission_work_read = "work.read"

abbrev pub permission_goal_create : Permission
permission_goal_create = "goal.create"

abbrev pub permission_goal_update : Permission
permission_goal_update = "goal.update"

abbrev pub permission_project_create : Permission
permission_project_create = "project.create"

abbrev pub permission_project_update : Permission
permission_project_update = "project.update"

abbrev pub permission_task_create : Permission
permission_task_create = "task.create"

abbrev pub permission_task_update : Permission
permission_task_update = "task.update"

abbrev pub permission_task_status_update : Permission
permission_task_status_update = "task.status_update"

abbrev pub permission_task_assign : Permission
permission_task_assign = "task.assign"

abbrev pub permission_task_dependency_manage : Permission
permission_task_dependency_manage = "task.dependency_manage"

abbrev pub permission_task_comment_create : Permission
permission_task_comment_create = "task.comment_create"

abbrev pub permission_task_comment_moderate : Permission
permission_task_comment_moderate = "task.comment_moderate"

abbrev pub permission_task_artifact_manage : Permission
permission_task_artifact_manage = "task.artifact_manage"

abbrev pub permission_task_checklist_manage : Permission
permission_task_checklist_manage = "task.checklist_manage"

abbrev pub permission_task_schedule_manage : Permission
permission_task_schedule_manage = "task.schedule_manage"

abbrev pub permission_policy_read : Permission
permission_policy_read = "policy.read"

abbrev pub permission_policy_create : Permission
permission_policy_create = "policy.create"

abbrev pub permission_policy_update : Permission
permission_policy_update = "policy.update"

abbrev pub permission_policy_activate : Permission
permission_policy_activate = "policy.activate"

abbrev pub permission_policy_archive : Permission
permission_policy_archive = "policy.archive"

abbrev pub permission_policy_decision_read : Permission
permission_policy_decision_read = "policy.decision_read"

abbrev pub permission_model_provider_read : Permission
permission_model_provider_read = "model.provider_read"

abbrev pub permission_model_connection_read : Permission
permission_model_connection_read = "model.connection_read"

abbrev pub permission_model_connection_create : Permission
permission_model_connection_create = "model.connection_create"

abbrev pub permission_model_connection_update : Permission
permission_model_connection_update = "model.connection_update"

abbrev pub permission_model_connection_archive : Permission
permission_model_connection_archive = "model.connection_archive"

abbrev pub permission_model_catalog_read : Permission
permission_model_catalog_read = "model.catalog_read"

abbrev pub permission_model_catalog_refresh : Permission
permission_model_catalog_refresh = "model.catalog_refresh"

abbrev pub permission_model_binding_read : Permission
permission_model_binding_read = "model.binding_read"

abbrev pub permission_model_binding_update : Permission
permission_model_binding_update = "model.binding_update"

abbrev pub permission_model_binding_remove : Permission
permission_model_binding_remove = "model.binding_remove"

unfoldable pub known_permissions : List Permission
known_permissions =
    permission_tenant_read ∷ permission_tenant_update ∷ permission_tenant_archive
    ∷ permission_member_list ∷ permission_member_add ∷ permission_member_update_role
    ∷ permission_member_remove ∷ permission_entitlement_read ∷ permission_company_read
    ∷ permission_company_create ∷ permission_company_update ∷ permission_company_archive
    ∷ permission_agent_read ∷ permission_agent_create ∷ permission_agent_update
    ∷ permission_agent_delete ∷ permission_agent_hierarchy_manage
    ∷ permission_agent_lifecycle_manage ∷ permission_work_read ∷ permission_goal_create
    ∷ permission_goal_update ∷ permission_project_create ∷ permission_project_update
    ∷ permission_task_create ∷ permission_task_update ∷ permission_task_status_update
    ∷ permission_task_assign ∷ permission_task_dependency_manage ∷ permission_task_comment_create
    ∷ permission_task_comment_moderate ∷ permission_task_artifact_manage
    ∷ permission_task_checklist_manage ∷ permission_task_schedule_manage ∷ permission_policy_read
    ∷ permission_policy_create ∷ permission_policy_update ∷ permission_policy_activate
    ∷ permission_policy_archive ∷ permission_policy_decision_read ∷ permission_model_provider_read
    ∷ permission_model_connection_read ∷ permission_model_connection_create
    ∷ permission_model_connection_update ∷ permission_model_connection_archive
    ∷ permission_model_catalog_read ∷ permission_model_catalog_refresh
    ∷ permission_model_binding_read ∷ permission_model_binding_update
    ∷ permission_model_binding_remove ∷ []

unfoldable pub owner_permissions : List Permission
unfolding known_permissions
owner_permissions = known_permissions

unfoldable pub admin_permissions : List Permission
admin_permissions =
    permission_tenant_read ∷ permission_tenant_update ∷ permission_member_list
    ∷ permission_member_add ∷ permission_member_update_role ∷ permission_member_remove
    ∷ permission_entitlement_read ∷ permission_company_read ∷ permission_company_create
    ∷ permission_company_update ∷ permission_company_archive ∷ permission_agent_read
    ∷ permission_agent_create ∷ permission_agent_update ∷ permission_agent_delete
    ∷ permission_agent_hierarchy_manage ∷ permission_agent_lifecycle_manage ∷ permission_work_read
    ∷ permission_goal_create ∷ permission_goal_update ∷ permission_project_create
    ∷ permission_project_update ∷ permission_task_create ∷ permission_task_update
    ∷ permission_task_status_update ∷ permission_task_assign ∷ permission_task_dependency_manage
    ∷ permission_task_comment_create ∷ permission_task_comment_moderate
    ∷ permission_task_artifact_manage ∷ permission_task_checklist_manage
    ∷ permission_task_schedule_manage ∷ permission_policy_read ∷ permission_policy_create
    ∷ permission_policy_update ∷ permission_policy_activate ∷ permission_policy_archive
    ∷ permission_policy_decision_read ∷ permission_model_provider_read
    ∷ permission_model_connection_read ∷ permission_model_connection_create
    ∷ permission_model_connection_update ∷ permission_model_connection_archive
    ∷ permission_model_catalog_read ∷ permission_model_catalog_refresh
    ∷ permission_model_binding_read ∷ permission_model_binding_update
    ∷ permission_model_binding_remove ∷ []

unfoldable pub member_permissions : List Permission
member_permissions =
    permission_tenant_read ∷ permission_member_list ∷ permission_entitlement_read
    ∷ permission_company_read ∷ permission_agent_read ∷ permission_work_read
    ∷ permission_task_create ∷ permission_task_update ∷ permission_task_status_update
    ∷ permission_task_assign ∷ permission_task_dependency_manage ∷ permission_task_comment_create
    ∷ permission_task_artifact_manage ∷ permission_task_checklist_manage
    ∷ permission_task_schedule_manage ∷ permission_model_provider_read
    ∷ permission_model_catalog_read ∷ permission_model_binding_read ∷ []

unfoldable pub viewer_permissions : List Permission
viewer_permissions =
    permission_tenant_read ∷ permission_entitlement_read ∷ permission_company_read
    ∷ permission_agent_read ∷ permission_work_read ∷ permission_model_provider_read
    ∷ permission_model_catalog_read ∷ permission_model_binding_read ∷ []

-- The case labels of the switch in `IsMutationPermission`.
unfoldable pub mutation_permissions : List Permission
mutation_permissions =
    permission_tenant_update ∷ permission_tenant_archive ∷ permission_member_add
    ∷ permission_member_update_role ∷ permission_member_remove ∷ permission_company_create
    ∷ permission_company_update ∷ permission_company_archive ∷ permission_agent_create
    ∷ permission_agent_update ∷ permission_agent_delete ∷ permission_agent_hierarchy_manage
    ∷ permission_agent_lifecycle_manage ∷ permission_goal_create ∷ permission_goal_update
    ∷ permission_project_create ∷ permission_project_update ∷ permission_task_create
    ∷ permission_task_update ∷ permission_task_status_update ∷ permission_task_assign
    ∷ permission_task_dependency_manage ∷ permission_task_comment_create
    ∷ permission_task_comment_moderate ∷ permission_task_artifact_manage
    ∷ permission_task_checklist_manage ∷ permission_task_schedule_manage ∷ permission_policy_create
    ∷ permission_policy_update ∷ permission_policy_activate ∷ permission_policy_archive
    ∷ permission_model_connection_create ∷ permission_model_connection_update
    ∷ permission_model_connection_archive ∷ permission_model_catalog_refresh
    ∷ permission_model_binding_update ∷ permission_model_binding_remove ∷ []
