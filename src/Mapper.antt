-- ===== src/Mapper.antt =====
-- introspector/mapper.py: from the response of a provider to resources, attributes, partial resources and
-- relations, by the specification of the service. A JMESPath search is a call of the package jmespath:
-- it is the parameter `search`, which takes the expression and the document.
pub mod Eval
pub mod Attrs
pub mod Specs
pub mod Depth
pub mod Resources
pub mod Targets
pub mod Relations
