-- ===== src/Api.antt =====
-- pkg/apis/admissionregistration.x-k8s.io/v1alpha1: the policies and bindings of the custom API.
pub mod Memory
pub mod Types
pub mod Copy
